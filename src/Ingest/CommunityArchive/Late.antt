-- ===== src/Ingest/CommunityArchive/Late.antt =====
-- An import before the filings are collected, and a rematch after it, leave what a later import leaves.
use evnt_trden_public.Base.{
  ◌≡◌, refl, ap, ap₂, ◌∙◌, true, ◌&&◌, not, Option, none, some, is_some, List, [], ◌∷◌, ◌++◌, map,
  if◌then◌else◌, Text, text_eq, one_of, All, arith, Bool-cases, inl, inr,
}
use mathlib.Core.List.{map-append}
use evnt_trden_public.Base.Float.{Float}
use evnt_trden_public.Ingest.Index.{new_entries}
use evnt_trden_public.Sources.CommunityArchive.{CommunityRecord}
use evnt_trden_public.Ingest.CommunityArchive.{
  CommunityTransaction, keys_of, row_of, import_records, dedup_key_for, is_pending,
  rematch_unmatched,
}
use evnt_trden_public.Ingest.CommunityArchive.Rows.{is_stored, row_for, import_chunk_lem}
use evnt_trden_public.Ingest.CommunityArchive.Chunked.{import_records-import_chunk}
use evnt_trden_public.Ingest.CommunityArchive.Rematch.{settle, rematch_unmatched_lem}

pub keys_of-settle :
    (filings : List Text) (source : Text) (table : List CommunityTransaction)
    → keys_of source (map (settle filings) table) ≡ keys_of source table
unfolding keys_of
keys_of-settle filings source [] = refl
keys_of-settle filings source (ct ∷ table) = elim (Bool-cases (text_eq ct.source source)) [
  | inl e ↦ rw e (ap (◌∷◌ ct.dedup_key) (keys_of-settle filings source table))
  | inr e ↦ rw e (keys_of-settle filings source table)
]

module _ (sha256_hex : Text → Text) (repr : Float → Text) where
  module _ (filings later : List Text)
      (stays : (id : Text) → one_of filings id ≡ true → one_of later id ≡ true) where
    settled_match :
        (ext : Option Text)
        → let before = if is_stored filings ext then ext else none in
          (if not (is_some before) && is_some ext && is_stored later ext then ext else before)
          ≡ (if is_stored later ext then ext else none)
    settled_match none = refl
    settled_match (some []) = refl
    settled_match (some (c ∷ t)) = ground (arith, stays (c ∷ t))

    -- A row that was inserted without a match gets the one that it would be inserted with now.
    settle-row_for :
        (r : CommunityRecord)
        → settle later (row_for sha256_hex repr filings r) ≡ row_for sha256_hex repr later r
    unfolding row_of is_pending
    settle-row_for r =
        ap (λ m. record (row_of sha256_hex repr [] r) { matched_filing_id = m })
          (settled_match r.external_filing_id)

    settle-rows :
        (records : List CommunityRecord)
        → map (settle later) (map (row_for sha256_hex repr filings) records)
          ≡ map (row_for sha256_hex repr later) records
    settle-rows [] = refl
    settle-rows (r ∷ records) = ap₂ ◌∷◌ (settle-row_for r) (settle-rows records)

    -- With no filing removed in between, records of one source that were imported before some of their
    -- filings were stored stand, after a rematch, as an import at that time leaves them.
    pub rematch_unmatched-import_records :
        (source : Text) (records : List CommunityRecord) (table : List CommunityTransaction)
        → All (λ (r : CommunityRecord). r.source ≡ source) records
        → let early = (import_records sha256_hex repr filings source records table).0 in
          let rematched = (rematch_unmatched later table).0 in
          (rematch_unmatched later early).0
          ≡ (import_records sha256_hex repr later source records rematched).0
    rematch_unmatched-import_records source records table h =
        let new = new_entries (dedup_key_for sha256_hex repr) records (keys_of source table) in
        rw
          (
            import_records-import_chunk sha256_hex repr filings source records table h,
            import_chunk_lem sha256_hex repr filings source records table,
            rematch_unmatched_lem later table,
            rematch_unmatched_lem later (table ++ map (row_for sha256_hex repr filings) new),
            import_records-import_chunk sha256_hex repr later source records
                (map (settle later) table) h,
            import_chunk_lem sha256_hex repr later source records (map (settle later) table),
            keys_of-settle later source table,
          )
          (map-append (settle later) table (map (row_for sha256_hex repr filings) new)
            ∙ ap (◌++◌ (map (settle later) table)) (settle-rows new))
