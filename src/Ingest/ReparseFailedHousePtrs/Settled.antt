-- ===== src/Ingest/ReparseFailedHousePtrs/Settled.antt =====
-- What becomes of a filing: nothing, or it is parsed and its failures are resolved.
use evnt_trden_public.Base.{
  ◌≡◌, ◌⊎◌, refl, sym, ap, ◌∙◌, true, false, Option, none, some, inl, inr, List, [], ◌∷◌, ◌++◌,
  keep, any, All, Text, text_eq, text_eq_iff, arith,
}
use evnt_trden_public.Db.{Filing, Transaction, DqIssue, Db, electronic, parsed, get_filing}
use evnt_trden_public.Ingest.HousePtrs.Added.{IsRowOf, IsIssueOf}
use evnt_trden_public.Ingest.ReparseFailedHousePtrs.{is_of, is_open_failure}

abbrev pub rows_of : Text → Db → List Transaction
rows_of id db = keep (λ t. text_eq t.filing_id id) db.transactions

abbrev pub issues_of : Text → Db → List DqIssue
issues_of id db = keep (λ i. is_of id i.filing_id) db.dq_issues

-- The filing's row, its transactions and its issues are as before.
pub record Untouched (id : Text) (db after : Db) : Type 0 where
  pub same_filing : get_filing id after.filings ≡ get_filing id db.filings
  pub same_rows : rows_of id after ≡ rows_of id db
  pub same_issues : issues_of id after ≡ issues_of id db

-- The filing is parsed, and no failure of it is open.
pub record Done (id : Text) (after : Db) : Type 0 where
  pub marks :
      (f : Filing)
      → get_filing id after.filings ≡ some f
      → (f.format ≡ electronic) × (f.parse_status ≡ parsed)
  pub resolves : any (is_open_failure id) after.dq_issues ≡ false

abbrev pub Settles : Text → Db → Db → Type 0
Settles id db after = Untouched id db after ⊎ Done id after

pub Untouched-refl : (id : Text) (db : Db) → Untouched id db db
Untouched-refl id db = record { same_filing = refl; same_rows = refl; same_issues = refl }

any-issues_of :
    (id : Text) (issues : List DqIssue)
    → any (is_open_failure id) (keep (λ i. is_of id i.filing_id) issues)
      ≡ any (is_open_failure id) issues
unfolding is_open_failure
any-issues_of id [] = refl
any-issues_of id (i ∷ issues) = ground (arith, any-issues_of id issues)

Done-Untouched : (id : Text) (db after : Db) → Done id db → Untouched id db after → Done id after
Done-Untouched id db after d u = record {
  marks = λ f e. d.marks f (sym u.same_filing ∙ e);
  resolves =
      sym (any-issues_of id after.dq_issues)
      ∙ ap (any (is_open_failure id)) u.same_issues
      ∙ any-issues_of id db.dq_issues
      ∙ d.resolves;
}

pub Settles-trans : (id : Text) (a b c : Db) → Settles id a b → Settles id b c → Settles id a c
Settles-trans id a b c s (inr d) = inr d
Settles-trans id a b c (inr d) (inl u) = inr (Done-Untouched id b c d u)
Settles-trans id a b c (inl u) (inl v) = inl (record {
  same_filing = v.same_filing ∙ u.same_filing;
  same_rows = v.same_rows ∙ u.same_rows;
  same_issues = v.same_issues ∙ u.same_issues;
})

pub rows_of-append :
    (id other : Text) (xs ys : List Transaction)
    → text_eq id other ≡ false
    → All (IsRowOf id) ys
    → keep (λ t. text_eq t.filing_id other) (xs ++ ys) ≡ keep (λ t. text_eq t.filing_id other) xs
rows_of-append id other [] [] n h = refl
rows_of-append id other [] (y ∷ ys) n (e, h) = rw (e, n) (rows_of-append id other [] ys n h)
rows_of-append id other (x ∷ xs) ys n h = rw (rows_of-append id other xs ys n h) refl

pub issues_of-append :
    (id other : Text) (xs ys : List DqIssue)
    → text_eq id other ≡ false
    → All (IsIssueOf id) ys
    → keep (λ i. is_of other i.filing_id) (xs ++ ys) ≡ keep (λ i. is_of other i.filing_id) xs
issues_of-append id other [] [] n h = refl
issues_of-append id other [] (y ∷ ys) n ((e, k), h) =
    rw (e, n) (issues_of-append id other [] ys n h)
issues_of-append id other (x ∷ xs) ys n h = rw (issues_of-append id other xs ys n h) refl

pub is_of-other :
    (id other : Text) (owner : Option Text)
    → text_eq id other ≡ false
    → is_of other owner ≡ true
    → is_of id owner ≡ false
is_of-other id other none n h = refl
is_of-other id other (some x) n h =
    ground (arith, n, h, text_eq_iff x other, text_eq_iff x id, text_eq_iff id other)
