-- ===== src/Ingest/CommunityArchive/Report/Counts.antt =====
-- What the report counts of a table that has been matched.
use evnt_trden_public.Base.{
  ℕ, ◌+◌, ◌≡◌, refl, sym, ap, ap₂, ◌∙◌, Bool, ◌&&◌, not, Option, none, some, value_or, List, [],
  ◌∷◌, count_if, if◌then◌else◌, Text, text_eq, text_eq_iff, text_eq_refl, one_of, dict_get, All,
  arith, Bool-cases, inl, inr,
}
use evnt_trden_public.Ingest.CommunityArchive.{CommunityTransaction}
use evnt_trden_public.Ingest.CommunityArchive.Report.{
  Observed, same_option, has_row, distinct, observed, Bucket, empty_bucket, Report, count_in,
  add_row, add_rows, survivorship_report,
}

-- The filings that a source names, each once.
unfoldable pub distinct_ids : List Text → List Text
distinct_ids [] = []
distinct_ids (t ∷ ts) = let rest = distinct_ids ts in if one_of rest t then rest else t ∷ rest

-- The filings of a source's rows.
unfoldable pub named_by : Text → List Observed → List Text
named_by source [] = []
named_by source (a ∷ rows) =
    let rest = named_by source rows in
    if text_eq a.source source then a.external_filing_id ∷ rest else rest

dict_get-add_row :
    (source : Text) (a : Observed) (report : Report)
    → dict_get source (add_row a report) ≡ (
        if text_eq a.source source
        then some (count_in a.matched_filing_id (value_or empty_bucket (dict_get source report)))
        else dict_get source report)
unfolding add_row dict_get
dict_get-add_row source a [] =
    ground (arith, text_eq_iff source a.source, text_eq_iff a.source source)
dict_get-add_row source a ((s, b) ∷ report) = ground (
  arith,
  dict_get-add_row source a report,
  text_eq_iff source s,
  text_eq_iff a.source s,
  text_eq_iff a.source source,
)

-- The match of a row is what its filing's id gives.
module _ (is_match : Text → Bool) where
  abbrev pub match_of : Text → Option Text
  match_of id = if is_match id then some id else none

  abbrev pub IsMatched : Observed → Type 0
  IsMatched a = a.matched_filing_id ≡ match_of a.external_filing_id

  same_match : (x y : Text) → (text_eq x y && same_option (match_of x) (match_of y)) ≡ text_eq x y
  same_match x y = elim (Bool-cases (text_eq x y)) [
    | inl e ↦
        rw ((text_eq_iff x y).0 e, text_eq_refl y)
          (elim (Bool-cases (is_match y)) [ inl m ↦ rw m (text_eq_refl y) | inr m ↦ rw m refl ])
    | inr e ↦ rw e refl
  ]

  has_row_lem :
      (a : Observed) (rows : List Observed)
      → IsMatched a
      → All IsMatched rows
      → has_row a rows ≡ one_of (named_by a.source rows) a.external_filing_id
  unfolding has_row named_by one_of
  has_row_lem a [] m ms = refl
  has_row_lem a (b ∷ rows) m (n, ns) =
      rw (m, n, has_row_lem a rows m ns, same_match a.external_filing_id b.external_filing_id)
        (ground (
          arith,
          text_eq_iff a.source b.source,
          text_eq_iff b.source a.source,
          text_eq_iff a.external_filing_id b.external_filing_id,
          text_eq_iff b.external_filing_id a.external_filing_id,
        ))

  distinct-All : (rows : List Observed) → All IsMatched rows → All IsMatched (distinct rows)
  unfolding distinct
  distinct-All [] h = tt
  distinct-All (a ∷ rows) (m, h) = elim (Bool-cases (has_row a (distinct rows))) [
    | inl e ↦ rw e (distinct-All rows h)
    | inr e ↦ rw e (m, distinct-All rows h)
  ]

  -- Equal rows are just those of one filing.
  named_by-distinct :
      (source : Text) (rows : List Observed)
      → All IsMatched rows
      → named_by source (distinct rows) ≡ distinct_ids (named_by source rows)
  unfolding named_by distinct distinct_ids
  named_by-distinct source [] h = refl
  named_by-distinct source (a ∷ rows) (m, h) =
      let rest = named_by-distinct source rows h in
      elim (Bool-cases (text_eq a.source source)) [
        | inl e ↦
            let has =
              has_row_lem a (distinct rows) m (distinct-All rows h)
              ∙ ap (λ src. one_of (named_by src (distinct rows)) a.external_filing_id)
                  ((text_eq_iff a.source source).0 e)
              ∙ ap (λ ids. one_of ids a.external_filing_id) rest in
            elim (Bool-cases (has_row a (distinct rows))) [
              | inl k ↦ rw (k, e, sym has ∙ k) rest
              | inr k ↦ rw (k, e, sym has ∙ k) (ap (◌∷◌ a.external_filing_id) rest)
            ]
        | inr e ↦ elim (Bool-cases (has_row a (distinct rows))) [
          | inl k ↦ rw (k, e) rest
          | inr k ↦ rw (k, e) rest
        ]
      ]

  -- The bucket of a source after these filings.
  abbrev pub tallied : List Text → Option Bucket → Option Bucket
  tallied [] o = o
  tallied (t ∷ ts) o =
      let b = value_or empty_bucket o in
      some (record {
        matched = b.matched + count_if is_match (t ∷ ts);
        unmatched = b.unmatched + count_if (λ id. not (is_match id)) (t ∷ ts);
      })

  pub bucket_eq :
      {m m' u u' : ℕ}
      → m ≡ m'
      → u ≡ u'
      → ◌≡◌ {A = Bucket}
          (record { matched = m; unmatched = u })
          (record { matched = m'; unmatched = u' })
  bucket_eq p q = ap₂ (λ m u. record { matched = m; unmatched = u }) p q

  tallied_step :
      (t : Text) (ts : List Text) (o : Option Bucket)
      → tallied ts (some (count_in (match_of t) (value_or empty_bucket o))) ≡ tallied (t ∷ ts) o
  unfolding count_in
  tallied_step t [] o = elim (Bool-cases (is_match t)) [
    | inl m ↦ rw m (ap some (bucket_eq (omega arith) (omega arith)))
    | inr m ↦ rw m (ap some (bucket_eq (omega arith) (omega arith)))
  ]
  tallied_step t (u ∷ us) o = elim (Bool-cases (is_match t)) [
    | inl m ↦ rw m (ap some (bucket_eq (omega arith) (omega arith)))
    | inr m ↦ rw m (ap some (bucket_eq (omega arith) (omega arith)))
  ]

  dict_get-add_rows :
      (source : Text) (rows : List Observed) (report : Report)
      → All IsMatched rows
      → dict_get source (add_rows rows report)
        ≡ tallied (named_by source rows) (dict_get source report)
  unfolding add_rows named_by
  dict_get-add_rows source [] report h = refl
  dict_get-add_rows source (a ∷ rows) report (m, h) =
      dict_get-add_rows source rows (add_row a report) h
      ∙ rw (dict_get-add_row source a report, m)
          (elim (Bool-cases (text_eq a.source source)) [
            | inl e ↦
                rw e (
                  tallied_step a.external_filing_id (named_by source rows) (dict_get source report))
            | inr e ↦ rw e refl
          ])

  pub report_lem :
      (source : Text) (table : List CommunityTransaction)
      → All IsMatched (observed table)
      → dict_get source (survivorship_report table)
        ≡ tallied (distinct_ids (named_by source (observed table))) none
  unfolding survivorship_report dict_get
  report_lem source table h =
      dict_get-add_rows source (distinct (observed table)) [] (distinct-All (observed table) h)
      ∙ ap (λ ids. tallied ids none) (named_by-distinct source (observed table) h)
