-- ===== src/Ingest/ReparseFailedHousePtrs/Untouched.antt =====
-- A run leaves each filing as it was, or parsed with its failures resolved.
use evnt_trden_public.Base.{
  ℕ, ◌≡◌, refl, sym, ap, ◌∙◌, false, ◌&&◌, not, Option, none, some, map_option, Option-cases,
  Bool-cases, inl, inr, >>=-eq-some, of_some, List, [], ◌∷◌, map, keep, any, Text, text_eq,
  text_eq_iff, text_eq_refl, arith,
}
use evnt_trden_public.Db.{Filing, DqIssue, Db, electronic, parsed, get_filing, update_filing}
use evnt_trden_public.Db.Rows.{get_filing-update_filing}
use evnt_trden_public.Parsers.HousePtr.{ParsedTransaction}
use evnt_trden_public.Parsers.HousePtr.Columns.{is_electronic}
use evnt_trden_public.Ingest.HousePtrs.{
  Loaded, pages, load_error, set_parsed, add_rows, commit, unique_keys,
}
use evnt_trden_public.Ingest.HousePtrs.Added.{Added, add_rows-Added}
use evnt_trden_public.Ingest.ReparseFailedHousePtrs.{
  FailedFiling, is_of, is_open_failure, resolve_issue, resolve_issues, is_deferred, Reparsed, saved,
  still_fails, already_saved, raised, of_saved, ReparseRun, go_on, save_rows, save_and_resolve,
  reparse_rows, reparse, reparse_all, reparse_failed_filings, failed_filings,
}
use evnt_trden_public.Ingest.ReparseFailedHousePtrs.Settled.{
  Untouched, Done, Settles, Untouched-refl, Settles-trans, rows_of-append, issues_of-append,
  is_of-other,
}

same_saved : (a b : Db) → saved a ≡ saved b → a ≡ b
same_saved a b e = cc

marked_row :
    (before : Option Filing) (f : Filing)
    → map_option set_parsed before ≡ some f
    → (f.format ≡ electronic) × (f.parse_status ≡ parsed)
unfolding set_parsed
marked_row none f e = absurd cc
marked_row (some g) f e =
    let same = sym (of_some e) in (ap (λ x. x.format) same, ap (λ x. x.parse_status) same)

module _ (now : ℕ) where
  -- Resolving the failures of one filing leaves the issues of the others.
  issues_of-resolve :
      (id other : Text) (issues : List DqIssue)
      → text_eq id other ≡ false
      → keep (λ i. is_of other i.filing_id) (map (resolve_issue id now) issues)
        ≡ keep (λ i. is_of other i.filing_id) issues
  unfolding resolve_issue is_open_failure
  issues_of-resolve id other [] n = refl
  issues_of-resolve id other (i ∷ issues) n = elim (Bool-cases (is_of other i.filing_id)) [
    | inl e ↦
        rw (e, is_of-other id other i.filing_id n e)
          (ap (◌∷◌ i) (issues_of-resolve id other issues n))
    | inr e ↦ rw e (issues_of-resolve id other issues n)
  ]

  resolved_all :
      (id : Text) (issues : List DqIssue)
      → any (is_open_failure id) (map (resolve_issue id now) issues) ≡ false
  unfolding resolve_issue is_open_failure
  resolved_all id [] = refl
  resolved_all id (i ∷ issues) = ground (arith, resolved_all id issues)

  module _ (transaction_id_for : Text → ℕ → ℕ) where
    abbrev marked : Text → Db → Db
    marked id db = record db { filings = update_filing id set_parsed db.filings }

    keeps_id : (f : Filing) → (set_parsed f).filing_id ≡ f.filing_id
    unfolding set_parsed
    keeps_id f = refl

    others_Untouched :
        (id other : Text) (db added : Db)
        → text_eq id other ≡ false
        → Added id (marked id db) added
        → Untouched other db (resolve_issues id now added)
    unfolding resolve_issues
    others_Untouched id other db added n a = record {
      same_filing =
          ap (get_filing other) a.same_filings
          ∙ get_filing-update_filing id other set_parsed db.filings keeps_id
          ∙ rw n refl;
      same_rows =
          ap (keep (λ t. text_eq t.filing_id other)) a.appended_rows
          ∙ rows_of-append id other db.transactions a.rows n a.own_rows;
      same_issues =
          issues_of-resolve id other added.dq_issues n
          ∙ ap (keep (λ i. is_of other i.filing_id)) a.appended_issues
          ∙ issues_of-append id other db.dq_issues a.issues n a.own_issues;
    }

    own_Done :
        (id : Text) (db added : Db)
        → Added id (marked id db) added
        → Done id (resolve_issues id now added)
    unfolding resolve_issues
    own_Done id db added a = record {
      marks = λ f e. marked_row (get_filing id db.filings) f (
          sym (
            ap (get_filing id) a.same_filings
            ∙ get_filing-update_filing id id set_parsed db.filings keeps_id
            ∙ rw (text_eq_refl id) refl)
          ∙ e);
      resolves = resolved_all id added.dq_issues;
    }

    saved_Settles :
        (id other : Text) (ts : List ParsedTransaction) (db next : Db)
        → save_rows transaction_id_for now id ts db ≡ some next
        → Settles other db next
    unfolding save_rows
    saved_Settles id other ts db next h =
        let (added, e, f) = >>=-eq-some (add_rows transaction_id_for id ts (marked id db)) _ h in
        let a = add_rows-Added transaction_id_for id ts (marked id db) added e in
        rw (sym (of_some f)) (elim (Bool-cases (text_eq id other)) [
          | inl same ↦ inr (rw (sym ((text_eq_iff id other).0 same)) (own_Done id db added a))
          | inr differ ↦ inl (others_Untouched id other db added differ a)
        ])

    committed_Settles :
        (id other : Text) (ts : List ParsedTransaction) (db next : Db) (o : Option Db)
        → save_rows transaction_id_for now id ts db ≡ o
        → of_saved (commit o) ≡ saved next
        → Settles other db next
    unfolding commit of_saved
    committed_Settles id other ts db next none e h = absurd cc
    committed_Settles id other ts db next (some after) e h =
        elim (Bool-cases (unique_keys after.transactions)) [
          | inl u ↦
              saved_Settles id other ts db next (e ∙ ap some (same_saved after next (rw u at h)))
          | inr u ↦ let conflicts : already_saved ≡ saved next = rw u at h in absurd cc
        ]

    reparse_rows-Settles :
        (id other : Text) (o : Option (List ParsedTransaction)) (db next : Db)
        → reparse_rows transaction_id_for now id o db ≡ saved next
        → Settles other db next
    unfolding reparse_rows save_and_resolve
    reparse_rows-Settles id other none db next h = absurd cc
    reparse_rows-Settles id other (some []) db next h = absurd cc
    reparse_rows-Settles id other (some (t ∷ ts)) db next h =
        elim (Option-cases (get_filing id db.filings)) [
          | inl f ↦
              rw (sym (same_saved db next (unfold of_saved in rw f at h)))
                (inl (Untouched-refl other db))
          | inr (filing, f) ↦ committed_Settles id other (t ∷ ts) db next _ refl (rw f at h)
        ]

    reparse-Settles :
        (r : FailedFiling) (l : Loaded) (other : Text) (db next : Db)
        → reparse transaction_id_for now r l db ≡ saved next
        → Settles other db next
    unfolding reparse
    reparse-Settles r (load_error message) other db next h = absurd cc
    reparse-Settles r (pages words) other db next h =
        elim (Bool-cases (is_deferred r.status && not (is_electronic words))) [
          | inl e ↦ let fails : still_fails ≡ saved next = rw e at h in absurd cc
          | inr e ↦ reparse_rows-Settles r.filing_id other _ db next (rw e at h)
        ]

    module _ (download : Text → Loaded) where
      go_on-Settles :
          (other : Text) (rest : Db → ReparseRun) (db : Db) (t : Reparsed)
          → ((next : Db) → Settles other next (rest next).db)
          → ((next : Db) → t ≡ saved next → Settles other db next)
          → Settles other db (go_on rest db t).db
      unfolding go_on
      go_on-Settles other rest db (saved next) later step =
          Settles-trans other db next (rest next).db (step next refl) (later next)
      go_on-Settles other rest db still_fails later step = later db
      go_on-Settles other rest db already_saved later step = later db
      go_on-Settles other rest db raised later step = inl (Untouched-refl other db)

      reparse_all-Settles :
          (batch : List FailedFiling) (other : Text) (db : Db)
          → Settles other db (reparse_all transaction_id_for now download batch db).db
      unfolding reparse_all
      reparse_all-Settles [] other db = inl (Untouched-refl other db)
      reparse_all-Settles (r ∷ rest) other db =
          go_on-Settles other (reparse_all transaction_id_for now download rest) db
            (reparse transaction_id_for now r (download r.object_key) db)
            (λ next. reparse_all-Settles rest other next)
            (λ next e. reparse-Settles r (download r.object_key) other db next e)

      -- A run, also one that an exception ends, leaves each filing with its row, its transactions and its
      -- issues as they were, or parsed as an electronic report with no failure of it left open.
      pub reparse_failed_filings-Settles :
          (db : Db) (id : Text)
          → Settles id db (reparse_failed_filings transaction_id_for now download db).db
      unfolding reparse_failed_filings
      reparse_failed_filings-Settles db id = reparse_all-Settles (failed_filings db) id db
