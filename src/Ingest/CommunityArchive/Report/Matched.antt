-- ===== src/Ingest/CommunityArchive/Report/Matched.antt =====
-- The report after a rematch is exact.
use evnt_trden_public.Base.{
  Bool-cases, ◌≡◌, ◌⊎◌, inl, inr, refl, ap, ◌∙◌, Bool, true, ◌&&◌, not, Option, none, some, is_some,
  List, [], ◌∷◌, ◌++◌, map, count_if, is_empty, if◌then◌else◌, Text, dict_get, All, All-append,
  arith,
}
use evnt_trden_public.Base.Float.{Float}
use evnt_trden_public.Sources.CommunityArchive.{CommunityRecord}
use evnt_trden_public.Ingest.CommunityArchive.{
  row_of, import_records, CommunityTransaction, is_pending, rematch_unmatched,
}
use evnt_trden_public.Ingest.CommunityArchive.Rows.{is_stored, row_for, import_chunk_lem}
use evnt_trden_public.Ingest.CommunityArchive.Chunked.{import_records-import_chunk}
use evnt_trden_public.Ingest.CommunityArchive.Rematch.{settle, rematch_unmatched_lem}
use evnt_trden_public.Ingest.CommunityArchive.Report.{
  Observed, observed_of, observed, survivorship_report,
}
use evnt_trden_public.Ingest.CommunityArchive.Report.Counts.{
  distinct_ids, named_by, match_of, IsMatched, tallied, bucket_eq, report_lem,
}

module _ (filings : List Text) where
  -- A match, where there is one, is the record's own filing, which is stored (a foreign key).
  abbrev pub IsSound : CommunityTransaction → Type 0
  IsSound ct =
      (ct.matched_filing_id ≡ none)
      ⊎ ((is_stored filings ct.external_filing_id ≡ true)
          × (ct.matched_filing_id ≡ ct.external_filing_id))

  module _ (sha256_hex : Text → Text) (repr : Float → Text) where
    row_for-IsSound :
        (records : List CommunityRecord)
        → All IsSound (map (row_for sha256_hex repr filings) records)
    unfolding row_of
    row_for-IsSound [] = tt
    row_for-IsSound (r ∷ records) = (
      elim (Bool-cases (is_stored filings r.external_filing_id)) [
        | inl e ↦ rw e (inr (refl, refl))
        | inr e ↦ rw e (inl refl)
      ],
      row_for-IsSound records,
    )

    -- An import of one source's records adds only such rows.
    import_records-IsSound :
        (source : Text) (records : List CommunityRecord) (table : List CommunityTransaction)
        → All (λ (r : CommunityRecord). r.source ≡ source) records
        → All IsSound table
        → All IsSound (import_records sha256_hex repr filings source records table).0
    import_records-IsSound source records table h s =
        rw
          (
            import_records-import_chunk sha256_hex repr filings source records table h,
            import_chunk_lem sha256_hex repr filings source records table,
          )
          (All-append IsSound table _ s (row_for-IsSound _))

  abbrev is_ours : Text → Bool
  is_ours id = is_stored filings (some id)

  tallied-none :
      (ids : List Text)
      → tallied is_ours ids none ≡ (
          if is_empty ids
          then none
          else some (record {
            matched = count_if is_ours ids;
            unmatched = count_if (λ id. not (is_ours id)) ids;
          }))
  tallied-none [] = refl
  tallied-none (t ∷ ts) = ap some (bucket_eq is_ours (omega arith) (omega arith))

  settled_match :
      (ext matched : Option Text) (id : Text)
      → ext ≡ some id
      → (matched ≡ none) ⊎ ((is_stored filings ext ≡ true) × (matched ≡ ext))
      → (if not (is_some matched) && is_some ext && is_stored filings ext then ext else matched)
        ≡ match_of is_ours id
  settled_match ext matched id e (inl none_yet) = rw (none_yet, e) refl
  settled_match ext matched id e (inr (stored, same)) =
      let ours : is_stored filings (some id) ≡ true = rw e at stored in rw (same, e, ours) refl

  observed_settled :
      (ct : CommunityTransaction) (ext : Option Text)
      → ct.external_filing_id ≡ ext
      → IsSound ct
      → All (IsMatched is_ours) (observed_of (settle filings ct) ext)
  unfolding observed_of is_pending
  observed_settled ct none e s = tt
  observed_settled ct (some id) e s =
      (settled_match ct.external_filing_id ct.matched_filing_id id e s, tt)

  observed-settle :
      (table : List CommunityTransaction)
      → All IsSound table
      → All (IsMatched is_ours) (observed (map (settle filings) table))
  unfolding observed
  observed-settle [] h = tt
  observed-settle (ct ∷ table) (s, h) =
      All-append (IsMatched is_ours) _ _ (observed_settled ct ct.external_filing_id refl s)
        (observed-settle table h)

  named_by-observed_of :
      (source : Text) (ct : CommunityTransaction) (ext : Option Text) (xs ys : List Observed)
      → named_by source xs ≡ named_by source ys
      → named_by source (observed_of (settle filings ct) ext ++ xs)
        ≡ named_by source (observed_of ct ext ++ ys)
  unfolding observed_of named_by
  named_by-observed_of source ct none xs ys same = same
  named_by-observed_of source ct (some id) xs ys same = rw same refl

  -- A rematch changes no filing that a source names.
  named_by-settle :
      (source : Text) (table : List CommunityTransaction)
      → named_by source (observed (map (settle filings) table)) ≡ named_by source (observed table)
  unfolding observed named_by
  named_by-settle source [] = refl
  named_by-settle source (ct ∷ table) =
      named_by-observed_of source ct ct.external_filing_id _ _ (named_by-settle source table)

  -- If every match in the table is the own filing of its row, and stored, then after a rematch the
  -- report has for each source how many of the filings that its rows name, each taken once, are stored
  -- and how many are not; a source that names none has no bucket.
  pub survivorship_report-rematch_unmatched :
      (source : Text) (table : List CommunityTransaction)
      → All IsSound table
      → let ids = distinct_ids (named_by source (observed table)) in
        dict_get source (survivorship_report (rematch_unmatched filings table).0) ≡ (
          if is_empty ids
          then none
          else some (record {
            matched = count_if (λ id. is_stored filings (some id)) ids;
            unmatched = count_if (λ id. not (is_stored filings (some id))) ids;
          }))
  survivorship_report-rematch_unmatched source table h = rw (rematch_unmatched_lem filings table) (
      report_lem is_ours source (map (settle filings) table) (observed-settle table h)
      ∙ ap (λ ids. tallied is_ours (distinct_ids ids) none) (named_by-settle source table)
      ∙ tallied-none (distinct_ids (named_by source (observed table))))
