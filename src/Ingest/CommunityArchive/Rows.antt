-- ===== src/Ingest/CommunityArchive/Rows.antt =====
-- The row of a record by whether its filing is stored, and the new rows of a chunk.
use evnt_trden_public.Base.{
  ℕ, ◌≡◌, refl, sym, ap, ap₂, Bool, true, false, ◌&&◌, Option, none, some, List, [], ◌∷◌, ◌++◌, map,
  keep, length, length-map, if◌then◌else◌, Text, text_eq_iff, text_eq_refl, one_of, is_empty, arith,
  All,
}
use evnt_trden_public.Base.Float.{Float}
use evnt_trden_public.Ingest.Index.{new_entries}
use evnt_trden_public.Ingest.Index.Alone.{new_entries-All}
use evnt_trden_public.Sources.CommunityArchive.{CommunityRecord}
use evnt_trden_public.Ingest.CommunityArchive.{
  CommunityTransaction, candidates, stored_ids, is_in, existing_filing_ids, keys_of, dedup_key_for,
  row_of, import_chunk,
}

-- Whether a record names a filing that is stored.
abbrev pub is_stored : List Text → Option Text → Bool
is_stored filings none = false
is_stored filings (some []) = false
is_stored filings (some (c ∷ t)) = one_of filings (c ∷ t)

one_of-keep :
    (p : Text → Bool) (ids : List Text) (id : Text)
    → one_of (keep p ids) id ≡ (p id && one_of ids id)
unfolding one_of
one_of-keep p [] id = ground arith
one_of-keep p (i ∷ ids) id = ground (arith, one_of-keep p ids id, text_eq_iff id i)

candidates-nil : (ids : List (Option Text)) → one_of (candidates ids) [] ≡ false
unfolding candidates one_of
candidates-nil [] = refl
candidates-nil (none ∷ ids) = candidates-nil ids
candidates-nil (some [] ∷ ids) = candidates-nil ids
candidates-nil (some (c ∷ t) ∷ ids) = ground (arith, candidates-nil ids, text_eq_iff [] (c ∷ t))

-- The query answers rightly for what it was asked.
is_in-stored_ids :
    (filings ids : List Text) (ext : Option Text)
    → one_of ids [] ≡ false
    → ((c : ℕ) (t : Text) → ext ≡ some (c ∷ t) → one_of ids (c ∷ t) ≡ true)
    → is_in (stored_ids filings ids) ext ≡ is_stored filings ext
unfolding stored_ids
is_in-stored_ids filings ids none nil asked = refl
is_in-stored_ids filings ids (some []) nil asked =
    ground (arith, one_of-keep (one_of ids) filings [])
is_in-stored_ids filings ids (some (c ∷ t)) nil asked =
    ground (arith, asked c t refl, one_of-keep (one_of ids) filings (c ∷ t))

candidates-cons :
    (ext : Option Text) (ids : List (Option Text)) (id : Text)
    → one_of (candidates ids) id ≡ true
    → one_of (candidates (ext ∷ ids)) id ≡ true
unfolding candidates one_of
candidates-cons none ids id h = h
candidates-cons (some []) ids id h = h
candidates-cons (some (c ∷ t)) ids id h = ground (arith, h)

candidates-here :
    (ids : List (Option Text)) (c : ℕ) (t : Text)
    → one_of (candidates (some (c ∷ t) ∷ ids)) (c ∷ t) ≡ true
unfolding candidates one_of
candidates-here ids c t = ground (arith, text_eq_refl (c ∷ t))

module _ {A : Type 0} (filings : List Text) (ext_of : A → Option Text) where
  all_asked :
      (ids : List Text) (xs : List A)
      → one_of ids [] ≡ false
      → ((id : Text) → one_of (candidates (map ext_of xs)) id ≡ true → one_of ids id ≡ true)
      → All (λ x. is_in (stored_ids filings ids) (ext_of x) ≡ is_stored filings (ext_of x)) xs
  all_asked ids [] nil asked = tt
  all_asked ids (x ∷ xs) nil asked = (
    is_in-stored_ids filings ids (ext_of x) nil
        (λ c t e. asked (c ∷ t) (rw e (candidates-here (map ext_of xs) c t))),
    all_asked ids xs nil (λ id h. asked id (candidates-cons (ext_of x) (map ext_of xs) id h)),
  )

  pub is_in-candidates :
      (xs : List A)
      → All
          (λ x.
            is_in (stored_ids filings (candidates (map ext_of xs))) (ext_of x)
            ≡ is_stored filings (ext_of x))
          xs
  is_in-candidates xs =
      all_asked (candidates (map ext_of xs)) xs (candidates-nil (map ext_of xs)) (λ id h. h)

stored_ids-nil : (filings : List Text) → stored_ids filings [] ≡ []
unfolding stored_ids one_of
stored_ids-nil [] = refl
stored_ids-nil (f ∷ filings) = stored_ids-nil filings

-- Without an id to ask for there is no query, which would find none.
asked_or_not :
    (filings ids : List Text)
    → (if is_empty ids then [] else stored_ids filings ids) ≡ stored_ids filings ids
asked_or_not filings [] = sym (stored_ids-nil filings)
asked_or_not filings (i ∷ ids) = refl

existing_filing_ids_lem :
    (filings : List Text) (chunk : List CommunityRecord)
    → existing_filing_ids filings chunk
      ≡ stored_ids filings (candidates (map (λ r. r.external_filing_id) chunk))
unfolding existing_filing_ids
existing_filing_ids_lem filings chunk =
    asked_or_not filings (candidates (map (λ (r : CommunityRecord). r.external_filing_id) chunk))

module _ (sha256_hex : Text → Text) (repr : Float → Text) where
  abbrev key : CommunityRecord → Text
  key = dedup_key_for sha256_hex repr

  -- The row by the stored filings, whatever else its chunk asked for.
  abbrev pub row_for : List Text → CommunityRecord → CommunityTransaction
  row_for filings r = record (row_of sha256_hex repr [] r) {
    matched_filing_id =
        if is_stored filings r.external_filing_id then r.external_filing_id else none;
  }

  map-row_of :
      (filings existing : List Text) (records : List CommunityRecord)
      → All
          (λ (r : CommunityRecord).
            is_in existing r.external_filing_id ≡ is_stored filings r.external_filing_id)
          records
      → map (row_of sha256_hex repr existing) records ≡ map (row_for filings) records
  unfolding row_of
  map-row_of filings existing [] h = refl
  map-row_of filings existing (r ∷ records) (e, h) =
      rw e (ap (◌∷◌ (row_for filings r)) (map-row_of filings existing records h))

  -- A chunk adds the rows of its new records.
  pub import_chunk_lem :
      (filings : List Text) (source : Text) (chunk : List CommunityRecord)
      (table : List CommunityTransaction)
      → let new = new_entries key chunk (keys_of source table) in
        import_chunk sha256_hex repr filings source chunk table
        ≡ (table ++ map (row_for filings) new, length new)
  unfolding import_chunk
  import_chunk_lem filings source chunk table =
      let new = new_entries key chunk (keys_of source table) in
      let asked =
        new_entries-All key
          (λ (r : CommunityRecord).
            is_in (existing_filing_ids filings chunk) r.external_filing_id
            ≡ is_stored filings r.external_filing_id)
          (keys_of source table) chunk
          (rw (existing_filing_ids_lem filings chunk)
            (is_in-candidates filings (λ (r : CommunityRecord). r.external_filing_id) chunk)) in
      ap₂ (λ rows n. (table ++ rows, n))
        (map-row_of filings (existing_filing_ids filings chunk) new asked)
        (length-map (row_of sha256_hex repr (existing_filing_ids filings chunk)) new)
