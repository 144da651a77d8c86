-- ===== src/Ingest/PoliticianLinks/Settled.antt =====
-- Each filing of a batch is linked or flagged.
use evnt_trden_public.Base.{
  ℕ, ◌≡◌, refl, Bool, true, ◌||◌, Option, none, some, is_some, Option-cases, Bool-cases, inl, inr,
  List, [], ◌∷◌, ◌++◌, any, Text, codes, text_eq, text_eq_iff, starts_with, arith,
}
use evnt_trden_public.Base.Calendar.{Date}
use evnt_trden_public.Db.{Filing, Db, DqIssue, get_filing}
use evnt_trden_public.Db.Rows.{get_filing-update_filing}
use evnt_trden_public.Parsers.PoliticianMatch.{MatchResult, Method, best_match, normalize_name}
use evnt_trden_public.Ingest.PoliticianLinks.{
  People, is_match_issue, is_flagged, fetch_pending, Linking, set_politician, assign, flag,
  method_text, use_result, use_override, link_filing, link_batch, link_pending_filings,
  find_override, candidates_for, as_of_date,
}

abbrev has_politician : Option Filing → Bool
has_politician none = true
has_politician (some f) = is_some f.bioguide_id

-- A filing that has its politician (or is gone), or that is flagged.
unfoldable pub settled : Text → Db → Bool
settled id db = has_politician (get_filing id db.filings) || is_flagged db.dq_issues id

is_flagged-append :
    (issues more : List DqIssue) (id : Text)
    → is_flagged (issues ++ more) id ≡ (is_flagged issues id || is_flagged more id)
unfolding is_flagged
is_flagged-append [] more id = refl
is_flagged-append (issue ∷ issues) more id = ground (arith, is_flagged-append issues more id)

method_text-prefix :
    (m : Method)
    → starts_with (codes "politician_match_" ++ method_text m) (codes "politician_match_") ≡ true
unfolding starts_with
method_text-prefix m = refl

assign-settled :
    (id : Text) (f : Filing) (s : Linking) (other : Text)
    → settled other (assign id f s).db ≡ (settled other s.db || text_eq f.filing_id other)
unfolding settled assign
assign-settled id f s other = ground (
  arith,
  get_filing-update_filing f.filing_id other (set_politician id) s.db.filings
      (λ g. unfold set_politician in refl),
)

flag-settled :
    (m : Method) (details : Text) (f : Filing) (s : Linking) (other : Text)
    → settled other (flag m details f s).db ≡ (settled other s.db || text_eq f.filing_id other)
unfolding flag settled
flag-settled m details f s other = elim (Bool-cases (is_flagged s.db.dq_issues f.filing_id)) [
  | inl e ↦ ground (arith, e, text_eq_iff f.filing_id other)
  | inr e ↦
      rw (e, is_flagged-append)
        (unfold is_flagged is_match_issue in ground (arith, method_text-prefix m))
]

module _ (token_sort_ratio : Text → Text → ℕ) (details : Filing → Date → ℕ → Text)
    (people : People) where
  use_result-settled :
      (f : Filing) (s : Linking) (r : MatchResult) (other : Text)
      → settled other (use_result token_sort_ratio details people f s r).db
        ≡ (settled other s.db || text_eq f.filing_id other)
  unfolding use_result
  use_result-settled f s r other = elim (Option-cases r.bioguide_id) [
    | inl e ↦ rw e (flag-settled r.method _ f s other)
    | inr (id, e) ↦ rw e (assign-settled id f s other)
  ]

  use_override-settled :
      (f : Filing) (s : Linking) (o : Option Text) (r : MatchResult) (other : Text)
      → settled other (use_override token_sort_ratio details people f s o r).db
        ≡ (settled other s.db || text_eq f.filing_id other)
  unfolding use_override
  use_override-settled f s (some id) r other = assign-settled id f s other
  use_override-settled f s none r other = use_result-settled f s r other

  link_filing-settled :
      (s : Linking) (f : Filing) (other : Text)
      → settled other (link_filing token_sort_ratio details people s f).db
        ≡ (settled other s.db || text_eq f.filing_id other)
  unfolding link_filing
  link_filing-settled s f other =
      use_override-settled f s
        (find_override f.chamber (normalize_name f.filer_name) people.overrides)
        (best_match token_sort_ratio f.filer_name (candidates_for f.chamber (as_of_date f) people))
        other

  link_batch-settled :
      (fs : List Filing) (s : Linking) (other : Text)
      → settled other (link_batch token_sort_ratio details people fs s).db
        ≡ (settled other s.db || any (λ f. text_eq f.filing_id other) fs)
  unfolding link_batch
  link_batch-settled [] s other = ground arith
  link_batch-settled (f ∷ fs) s other = ground (
    arith,
    link_batch-settled fs (link_filing token_sort_ratio details people s f) other,
    link_filing-settled s f other,
  )

  -- After a run the filings that are linked or carry an open issue are those that were or did before, and
  -- those of the batch: none of the batch is left without either.
  pub link_pending_filings-settled :
      (batch_size : ℕ) (db : Db) (id : Text)
      → settled id (link_pending_filings token_sort_ratio details people batch_size db).db
        ≡ (settled id db || any (λ f. text_eq f.filing_id id) (fetch_pending batch_size db))
  unfolding link_pending_filings
  link_pending_filings-settled batch_size db id =
      link_batch-settled (fetch_pending batch_size db) _ id
