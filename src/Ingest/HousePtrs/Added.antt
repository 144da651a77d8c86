-- ===== src/Ingest/HousePtrs/Added.antt =====
-- Adding the rows of a report appends rows and issues of its own filing, and does nothing else.
use evnt_trden_public.Base.{
  ℕ, ◌≡◌, refl, sym, ap, ◌∙◌, some, >>=-eq-some, of_some, Option-cases, inl, inr, List, [], ◌∷◌,
  ◌++◌, append_assoc, append-nil, All, Text, codes,
}
use evnt_trden_public.Db.{Transaction, DqIssue, Db}
use evnt_trden_public.Parsers.HousePtr.{ParsedTransaction}
use evnt_trden_public.Ingest.HousePtrs.{issue, add_transaction, add_issue, transaction_of, add_rows}
use evnt_trden_public.Ingest.HousePtrs.Rows.{transaction_of-key}

abbrev pub IsRowOf : Text → Transaction → Type 0
IsRowOf id t = t.filing_id ≡ id

abbrev pub IsIssueOf : Text → DqIssue → Type 0
IsIssueOf id i = (i.filing_id ≡ some id) × (i.issue_type ≡ codes "unknown_tx_type")

pub record Added (id : Text) (db after : Db) : Type 0 where
  pub rows : List Transaction
  pub issues : List DqIssue
  pub same_filings : after.filings ≡ db.filings
  pub appended_rows : after.transactions ≡ db.transactions ++ rows
  pub appended_issues : after.dq_issues ≡ db.dq_issues ++ issues
  pub own_rows : All (IsRowOf id) rows
  pub own_issues : All (IsIssueOf id) issues

module _ (transaction_id_for : Text → ℕ → ℕ) where
  one_row :
      (id : Text) (row : Transaction) (db after : Db)
      → row.filing_id ≡ id
      → Added id (add_transaction row db) after
      → Added id db after
  unfolding add_transaction
  one_row id row db after e a = record {
    rows = row ∷ a.rows;
    issues = a.issues;
    same_filings = a.same_filings;
    appended_rows = a.appended_rows ∙ append_assoc db.transactions (row ∷ []) a.rows;
    appended_issues = a.appended_issues;
    own_rows = (e, a.own_rows);
    own_issues = a.own_issues;
  }

  one_issue :
      (id : Text) (t : ParsedTransaction) (db after : Db)
      → Added id (add_issue id t db) after
      → Added id db after
  unfolding add_issue issue
  one_issue id t db after a = record {
    rows = a.rows;
    issues = _ ∷ a.issues;
    same_filings = a.same_filings;
    appended_rows = a.appended_rows;
    appended_issues = a.appended_issues ∙ append_assoc db.dq_issues (_ ∷ []) a.issues;
    own_rows = a.own_rows;
    own_issues = ((refl, refl), a.own_issues);
  }

  pub add_rows-Added :
      (id : Text) (ts : List ParsedTransaction) (db after : Db)
      → add_rows transaction_id_for id ts db ≡ some after
      → Added id db after
  unfolding add_rows
  add_rows-Added id [] db after h =
      let same : db ≡ after = of_some h in
      record {
        rows = [];
        issues = [];
        same_filings = ap (λ d. d.filings) (sym same);
        appended_rows = ap (λ d. d.transactions) (sym same) ∙ sym (append-nil db.transactions);
        appended_issues = ap (λ d. d.dq_issues) (sym same) ∙ sym (append-nil db.dq_issues);
        own_rows = tt;
        own_issues = tt;
      }
  add_rows-Added id (t ∷ ts) db after h = elim (Option-cases t.tx_type) [
    | inl e ↦ one_issue id t db after (add_rows-Added id ts (add_issue id t db) after (rw e at h))
    | inr (type, e) ↦
        let (row, f, g) = >>=-eq-some (transaction_of transaction_id_for id t type) _ (rw e at h) in
        let (key, i) = transaction_of-key transaction_id_for id type t row f in
        one_row id row db after key (add_rows-Added id ts (add_transaction row db) after g)
  ]
