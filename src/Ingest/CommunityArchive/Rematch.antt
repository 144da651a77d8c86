-- ===== src/Ingest/CommunityArchive/Rematch.antt =====
-- Rows that are matched later: which they are, and that a late import leaves no other table.
use evnt_trden_public.Base.{
  ℕ, sym, ◌∙◌, ap₂, ◌+◌, ◌≡◌, refl, ap, Bool, false, ◌&&◌, List, [], ◌∷◌, map, keep, count_if,
  if◌then◌else◌, Text, All, arith, Bool-cases, inl, inr,
}
use evnt_trden_public.Ingest.CommunityArchive.{
  CommunityTransaction, is_in, is_pending, rematch_row, rematch_rows, rematch_pending,
  rematch_unmatched,
}
use evnt_trden_public.Ingest.CommunityArchive.Rows.{is_stored, is_in-candidates}

module _ (filings : List Text) where
  -- A row without a match whose filing is stored.
  abbrev pub is_due : CommunityTransaction → Bool
  is_due ct = is_pending ct && is_stored filings ct.external_filing_id

  abbrev pub settle : CommunityTransaction → CommunityTransaction
  settle ct = record ct {
    matched_filing_id = if is_due ct then ct.external_filing_id else ct.matched_filing_id;
  }

  abbrev Answers : List Text → CommunityTransaction → Type 0
  Answers ids ct = is_in ids ct.external_filing_id ≡ is_stored filings ct.external_filing_id

  -- Every row that is due gets its filing; the number of them is counted.
  abbrev pub settled : List CommunityTransaction → List CommunityTransaction × ℕ
  settled table = (map settle table, count_if is_due table)

  rematch_rows_lem :
      (ids : List Text) (table : List CommunityTransaction)
      → All (Answers ids) (keep is_pending table)
      → rematch_rows ids table ≡ settled table
  unfolding rematch_rows rematch_row
  rematch_rows_lem ids [] h = refl
  rematch_rows_lem ids (ct ∷ table) h = elim (Bool-cases (is_pending ct)) [
    | inl e ↦
        let (a, later) : Answers ids ct × All (Answers ids) (keep is_pending table) = rw e at h in
        rw (e, a, rematch_rows_lem ids table later)
          (elim (Bool-cases (is_stored filings ct.external_filing_id)) [
            | inl s ↦ rw s refl
            | inr s ↦ rw s refl
          ])
    | inr e ↦ rw (e, rematch_rows_lem ids table (rw e at h)) refl
  ]

  none_due :
      (table : List CommunityTransaction)
      → keep is_pending table ≡ []
      → All (λ ct. is_due ct ≡ false) table
  none_due [] h = tt
  none_due (ct ∷ table) h = elim (Bool-cases (is_pending ct)) [
    | inl e ↦ absurd (ground (arith, rw e at h))
    | inr e ↦ rw e (refl, none_due table (rw e at h))
  ]

  settled_still :
      (table : List CommunityTransaction)
      → All (λ ct. is_due ct ≡ false) table
      → settled table ≡ (table, 0)
  settled_still [] h = refl
  settled_still (ct ∷ table) (e, h) =
      let same = settled_still table h in
      let counted : 0 + count_if is_due table ≡ 0 = omega (arith, ap (λ r. r.1) same) in
      rw e (ap₂ (λ rows n. (ct ∷ rows, n)) (ap (λ r. r.0) same) counted)

  rematch_pending_lem :
      (pending table : List CommunityTransaction)
      → keep is_pending table ≡ pending
      → rematch_pending filings pending table ≡ settled table
  unfolding rematch_pending
  rematch_pending_lem [] table e = sym (settled_still table (none_due table e))
  rematch_pending_lem (ct ∷ pending) table e = rematch_rows_lem _ table (
      rw e (
        is_in-candidates filings (λ (c : CommunityTransaction). c.external_filing_id)
          (ct ∷ pending)))

  pub rematch_unmatched_lem :
      (table : List CommunityTransaction) → rematch_unmatched filings table ≡ settled table
  unfolding rematch_unmatched
  rematch_unmatched_lem table = rematch_pending_lem (keep is_pending table) table refl

  settled_lem :
      (table : List CommunityTransaction)
      → All (λ ct. is_due ct ≡ false) (map settle table)
        × (count_if is_pending table
            ≡ count_if is_due table + count_if is_pending (map settle table))
  unfolding is_pending
  settled_lem [] = (tt, refl)
  settled_lem (ct ∷ table) =
      let (settled, count) = settled_lem table in ground (arith, settled, count)

  -- A table that is settled is left as it is.
  pub rematch_unmatched_twice :
      (table : List CommunityTransaction)
      → rematch_unmatched filings (map settle table) ≡ (map settle table, 0)
  rematch_unmatched_twice table =
      rematch_unmatched_lem (map settle table)
      ∙ settled_still (map settle table) (settled_lem table).0

  -- After a rematch no row whose filing is stored is left without a match, and the number that it
  -- returns is by how much fewer rows are without one.
  pub rematch_unmatched-settles :
      (table : List CommunityTransaction)
      → let (later, n) = rematch_unmatched filings table in
        All (λ ct. is_due ct ≡ false) later
        × (count_if is_pending table ≡ n + count_if is_pending later)
  rematch_unmatched-settles table = rw (rematch_unmatched_lem table) (settled_lem table)
