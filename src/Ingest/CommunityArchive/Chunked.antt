-- ===== src/Ingest/CommunityArchive/Chunked.antt =====
-- An import in chunks is one import; what it leaves, and when it adds nothing.
use evnt_trden_public.Base.{
  false, ◌≡◌, refl, sym, ap, ◌∙◌, List, [], ◌∷◌, ◌++◌, append_assoc, append-nil, map, length,
  length-append, Text, text_eq, text_eq_refl, All, All-split, arith, Bool-cases, inl, inr, ◌+◌,
}
use mathlib.Core.List.{map-append}
use evnt_trden_public.Base.Chunks.{concat, chunked, concat-chunked}
use evnt_trden_public.Base.Float.{Float}
use evnt_trden_public.Ingest.Index.{new_entries, new_entries_onto}
use evnt_trden_public.Ingest.Index.Alone.{new_entries-append, new_entries-All, new_entries_again}
use evnt_trden_public.Sources.CommunityArchive.{CommunityRecord}
use evnt_trden_public.Ingest.CommunityArchive.{
  CommunityTransaction, keys_of, row_of, import_chunk, import_chunks, import_records,
  import_chunk_size, dedup_key_for,
}
use evnt_trden_public.Ingest.CommunityArchive.Rows.{row_for, import_chunk_lem}

keys_of-append :
    (source : Text) (xs ys : List CommunityTransaction)
    → keys_of source (xs ++ ys) ≡ keys_of source xs ++ keys_of source ys
unfolding keys_of
keys_of-append source [] ys = refl
keys_of-append source (ct ∷ xs) ys = elim (Bool-cases (text_eq ct.source source)) [
  | inl e ↦ rw e (ap (◌∷◌ ct.dedup_key) (keys_of-append source xs ys))
  | inr e ↦ rw e (keys_of-append source xs ys)
]

module _ (sha256_hex : Text → Text) (repr : Float → Text) where
  abbrev pub key : CommunityRecord → Text
  key = dedup_key_for sha256_hex repr

  abbrev pub IsOf : Text → CommunityRecord → Type 0
  IsOf source r = r.source ≡ source

  keys_of-rows :
      (filings : List Text) (source : Text) (records : List CommunityRecord)
      → All (IsOf source) records
      → keys_of source (map (row_for sha256_hex repr filings) records) ≡ map key records
  unfolding keys_of row_of dedup_key_for
  keys_of-rows filings source [] h = refl
  keys_of-rows filings source (r ∷ records) (e, h) =
      rw (e, text_eq_refl source) (ap (◌∷◌ (key r)) (keys_of-rows filings source records h))

  module _ (filings : List Text) (source : Text) where
    abbrev pub after : List CommunityRecord → List CommunityTransaction → List CommunityTransaction
    after records table =
        table
        ++ map (row_for sha256_hex repr filings) (new_entries key records (keys_of source table))

    pub keys_of-after :
        (records : List CommunityRecord) (table : List CommunityTransaction)
        → All (IsOf source) records
        → keys_of source (after records table)
          ≡ keys_of source table ++ map key (new_entries key records (keys_of source table))
    keys_of-after records table h =
        let new = new_entries key records (keys_of source table) in
        keys_of-append source table (map (row_for sha256_hex repr filings) new)
        ∙ ap (◌++◌ (keys_of source table)) (
            keys_of-rows filings source new
              (new_entries-All key (IsOf source) (keys_of source table) records h))

    import_chunks_lem :
        (chunks : List (List CommunityRecord)) (table : List CommunityTransaction)
        → All (IsOf source) (concat chunks)
        → import_chunks sha256_hex repr filings source chunks table
          ≡ import_chunk sha256_hex repr filings source (concat chunks) table
    unfolding import_chunks concat
    import_chunks_lem [] table h =
        ap (λ t. (t, 0)) (sym (append-nil table))
        ∙ (unfold new_entries new_entries_onto in
            sym (import_chunk_lem sha256_hex repr filings source [] table))
    import_chunks_lem (chunk ∷ chunks) table h =
        let (here, later) = All-split (IsOf source) chunk (concat chunks) h in
        let known = keys_of source table in
        let first = new_entries key chunk known in
        let second = new_entries key (concat chunks) (known ++ map key first) in
        rw
          (
            import_chunk_lem sha256_hex repr filings source chunk table,
            import_chunk_lem sha256_hex repr filings source (chunk ++ concat chunks) table,
            import_chunks_lem chunks (after chunk table) later,
            import_chunk_lem sha256_hex repr filings source (concat chunks) (after chunk table),
            keys_of-after chunk table here,
            new_entries-append key known chunk (concat chunks),
            map-append,
            length-append first second,
          )
          (ap (λ t. (t, length first + length second))
            (append_assoc table (map (row_for sha256_hex repr filings) first)
              (map (row_for sha256_hex repr filings) second)))

    -- An import of one source's records in chunks is the import of all of them at once.
    pub import_records-import_chunk :
        (records : List CommunityRecord) (table : List CommunityTransaction)
        → All (λ (r : CommunityRecord). r.source ≡ source) records
        → import_records sha256_hex repr filings source records table
          ≡ import_chunk sha256_hex repr filings source records table
    unfolding import_records
    import_records-import_chunk records table h =
        let whole = concat-chunked import_chunk_size records (omega arith) in
        import_chunks_lem (chunked import_chunk_size records) table (rw whole h)
        ∙ ap (λ rs. import_chunk sha256_hex repr filings source rs table) whole

    -- Records whose keys are all among the table's add nothing.
    pub import_records_none :
        (records : List CommunityRecord) (table : List CommunityTransaction) (known : List Text)
        → All (λ (r : CommunityRecord). r.source ≡ source) records
        → keys_of source table ≡ known ++ map key (new_entries key records known)
        → import_records sha256_hex repr filings source records table ≡ (table, 0)
    import_records_none records table known h keys =
        rw
          (
            import_records-import_chunk records table h,
            import_chunk_lem sha256_hex repr filings source records table,
            keys,
            new_entries_again key known records,
          )
          (ap (λ t. (t, 0)) (append-nil table))

  keys_of-others :
      (filings : List Text) (source other : Text) (records : List CommunityRecord)
      → text_eq other source ≡ false
      → All (IsOf other) records
      → keys_of source (map (row_for sha256_hex repr filings) records) ≡ []
  unfolding keys_of row_of
  keys_of-others filings source other [] differ h = refl
  keys_of-others filings source other (r ∷ records) differ (e, h) =
      rw (e, differ) (keys_of-others filings source other records differ h)

  -- An import of another source is not seen.
  pub keys_of-other :
      (filings : List Text) (source other : Text) (records : List CommunityRecord)
      (table : List CommunityTransaction)
      → text_eq other source ≡ false
      → All (IsOf other) records
      → keys_of source (after filings other records table) ≡ keys_of source table
  keys_of-other filings source other records table differ h =
      let new = new_entries key records (keys_of other table) in
      keys_of-append source table (map (row_for sha256_hex repr filings) new)
      ∙ ap (◌++◌ (keys_of source table)) (
          keys_of-others filings source other new differ
            (new_entries-All key (IsOf other) (keys_of other table) records h))
      ∙ append-nil (keys_of source table)
