-- ===== src/Ingest/TranscribedPtrs/Rerun.antt =====
-- A second import of a file changes nothing.
use evnt_trden_public.Base.{
  ℕ, suc, ◌+◌, ◌≡◌, refl, sym, ap, ◌∙◌, Bool, true, false, ◌&&◌, not, Option, none, some,
  Option-cases, Bool-cases, inl, inr, >>=-eq-some, of_some, map_option, List, [], ◌∷◌, ◌++◌, any,
  length, All, Text, text_eq, text_eq_refl, arith,
}
use evnt_trden_public.Db.{Filing, Transaction, Db, get_filing, update_filing}
use evnt_trden_public.Db.Rows.{get_filing-update_filing}
use evnt_trden_public.Ingest.TranscribedPtrs.{
  RawRow, TranscribedRow, Provenance, Import, accepts, skips, set_parsed, read_rows, rows_of,
  filing_ids_of, add_issue, add_transaction, add_rows, finish, import_filing, import_all,
  import_csv,
}

abbrev has_rows : Text → List Transaction → Bool
has_rows id ts = any (λ t. text_eq t.filing_id id) ts

has_rows-append :
    (id : Text) (ts : List Transaction) (t : Transaction)
    → has_rows id ts ≡ true
    → has_rows id (ts ++ t ∷ []) ≡ true
has_rows-append id [] t h = absurd cc
has_rows-append id (u ∷ ts) t h = ground (arith, has_rows-append id ts t)

set_parsed-closes : (o : Option Filing) → accepts (map_option set_parsed o) ≡ false
unfolding set_parsed
set_parsed-closes none = refl
set_parsed-closes (some f) = refl

module _ (transaction_id_for : Text → ℕ → ℕ) (file_name : Text) where
  add_rows-filings :
      (id : Text) (index : ℕ) (rows : List TranscribedRow) (s : Import)
      → (add_rows transaction_id_for file_name id index rows s).db.filings ≡ s.db.filings
  unfolding add_rows add_issue add_transaction
  add_rows-filings id index [] s = refl
  add_rows-filings id index (row ∷ rows) s = elim (Option-cases row.tx_type) [
    | inl e ↦ rw e (add_rows-filings id (suc index) rows _)
    | inr (type, e) ↦ rw e (add_rows-filings id (suc index) rows _)
  ]

  add_rows-has_rows :
      (id other : Text) (index : ℕ) (rows : List TranscribedRow) (s : Import)
      → has_rows other s.db.transactions ≡ true
      → has_rows other (add_rows transaction_id_for file_name id index rows s).db.transactions
        ≡ true
  unfolding add_rows add_issue add_transaction
  add_rows-has_rows id other index [] s h = h
  add_rows-has_rows id other index (row ∷ rows) s h = elim (Option-cases row.tx_type) [
    | inl e ↦ rw e (add_rows-has_rows id other (suc index) rows _ h)
    | inr (type, e) ↦ rw e (
        add_rows-has_rows id other (suc index) rows _ (has_rows-append other s.db.transactions _ h))
  ]

  accepts-update :
      (id other : Text) (fs : List Filing)
      → accepts (get_filing other (update_filing id set_parsed fs))
        ≡ (accepts (get_filing other fs) && not (text_eq id other))
  accepts-update id other fs = ground (
    arith,
    get_filing-update_filing id other set_parsed fs (λ f. unfold set_parsed in refl),
    set_parsed-closes (get_filing other fs),
  )

  -- A filing that the file leaves alone is left alone after any other was imported.
  import_filing-skips :
      (rows : List TranscribedRow) (s : Import) (id other : Text)
      → skips other s.db ≡ true
      → skips other (import_filing transaction_id_for file_name rows s id).db ≡ true
  unfolding import_filing finish
  import_filing-skips rows s id other h = elim (Bool-cases (skips id s.db)) [
    | inl e ↦ rw e h
    | inr e ↦ rw e (
        unfold skips in
        ground (
          arith,
          accepts-update id other
              (add_rows transaction_id_for file_name id 0 (rows_of id rows) s).db.filings,
          add_rows-filings id 0 (rows_of id rows) s,
          add_rows-has_rows id other 0 (rows_of id rows) s,
        ))
  ]

  import_filing-skips_own :
      (rows : List TranscribedRow) (s : Import) (id : Text)
      → skips id (import_filing transaction_id_for file_name rows s id).db ≡ true
  unfolding import_filing finish
  import_filing-skips_own rows s id = elim (Bool-cases (skips id s.db)) [
    | inl e ↦ rw e e
    | inr e ↦ rw e (
        unfold skips in
        ground (
          arith,
          accepts-update id id
              (add_rows transaction_id_for file_name id 0 (rows_of id rows) s).db.filings,
          text_eq_refl id,
        ))
  ]

  import_all-skips :
      (rows : List TranscribedRow) (ids : List Text) (s : Import) (other : Text)
      → skips other s.db ≡ true
      → skips other (import_all transaction_id_for file_name rows ids s).db ≡ true
  unfolding import_all
  import_all-skips rows [] s other h = h
  import_all-skips rows (id ∷ ids) s other h =
      import_all-skips rows ids (import_filing transaction_id_for file_name rows s id) other
        (import_filing-skips rows s id other h)

  import_all-skips_own :
      (rows : List TranscribedRow) (ids : List Text) (s : Import)
      → All (λ id. skips id (import_all transaction_id_for file_name rows ids s).db ≡ true) ids
  unfolding import_all
  import_all-skips_own rows [] s = tt
  import_all-skips_own rows (id ∷ ids) s =
      let next = import_filing transaction_id_for file_name rows s id in
      (
        import_all-skips rows ids next id (import_filing-skips_own rows s id),
        import_all-skips_own rows ids next,
      )

  -- A run over filings that are all left alone.
  import_all-none :
      (rows : List TranscribedRow) (ids : List Text) (s : Import)
      → All (λ id. skips id s.db ≡ true) ids
      → import_all transaction_id_for file_name rows ids s
        ≡ record s { skipped = s.skipped + length ids }
  unfolding import_all import_filing
  import_all-none rows [] s h = ap (λ n. record s { skipped = n }) (omega arith)
  import_all-none rows (id ∷ ids) s h = rw h.0 (
      import_all-none rows ids (record s { skipped = s.skipped + 1 }) h.1
      ∙ ap (λ n. record s { skipped = n }) (omega arith))

  -- A rerun of an import is a no-op: with the file imported, a second import, of the tables that the
  -- first one left, adds no transaction and skips every filing of the file.
  pub import_csv_twice :
      (raws : List RawRow) (db : Db) (provenance : List Provenance) (s : Import)
      → import_csv transaction_id_for file_name raws db provenance ≡ some s
      → import_csv transaction_id_for file_name raws s.db s.provenance
        ≡ some (record {
          db = s.db;
          provenance = s.provenance;
          imported = 0;
          added = 0;
          skipped = length (filing_ids_of raws);
        })
  unfolding import_csv
  import_csv_twice raws db provenance s h =
      let (rows, e, f) = >>=-eq-some (read_rows raws) _ h in
      let ids = filing_ids_of raws in
      rw e (
        ap some (
          import_all-none rows ids (record s { imported = 0; added = 0; skipped = 0 })
            (rw (sym (of_some f)) (
              import_all-skips_own rows ids (record {
                db = db;
                provenance = provenance;
                imported = 0;
                added = 0;
                skipped = 0;
              }))))
        ∙ ap (λ n. some (record s { imported = 0; added = 0; skipped = n })) (omega arith))
