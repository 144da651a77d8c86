-- ===== src/Ingest/Index/Insert.antt =====
-- `_insert_new_filings` beside other writers of the table.
use evnt_trden_public.Base.{
  ◌≡◌, refl, ap, ap₂, ◌∙◌, Bool, true, false, ◌&&◌, ◌||◌, not, none, or_else, map_option, List, [],
  ◌∷◌, ◌++◌, map, keep, if◌then◌else◌, Text, text_eq_iff, one_of, arith, Bool-cases, inl, inr,
}
use mathlib.Core.List.{map-append}
use evnt_trden_public.Db.{Filing, get_filing}
use evnt_trden_public.Db.Rows.{
  NodupIds, filing_ids, get_filing-append, is_some-get_filing, one_of-append,
}
use evnt_trden_public.Ingest.Index.{new_entries, insert_rows, insert_statement, insert_new_filings}
use evnt_trden_public.Ingest.Index.Entries.{
  eq_nil_of_find, find_entry, find_entry-new_entries, is_some-find_entry,
}

-- A row goes in where its key is free; a stored row is never touched.
pub get_filing-insert_rows :
    (rows table : List Filing) (id : Text)
    → get_filing id (insert_rows rows table).0 ≡ or_else (get_filing id table) (get_filing id rows)
unfolding insert_rows get_filing
get_filing-insert_rows [] table id = ground arith
get_filing-insert_rows (f ∷ rows) table id = ground (
  arith,
  get_filing-insert_rows rows table id,
  get_filing-insert_rows rows (table ++ f ∷ []) id,
  get_filing-append id table (f ∷ []),
  is_some-get_filing id table,
  text_eq_iff f.filing_id id,
)

NodupIds-append :
    (ts : List Text) (t : Text) → one_of ts t ≡ false → NodupIds ts → NodupIds (ts ++ t ∷ [])
unfolding one_of
NodupIds-append [] t h n = (refl, tt)
NodupIds-append (s ∷ ts) t h n = (
  ground (arith, one_of-append ts (t ∷ []) s, text_eq_iff t s, text_eq_iff s t),
  NodupIds-append ts t (ground arith) n.1,
)

pub insert_rows-NodupIds :
    (rows table : List Filing)
    → NodupIds (filing_ids table)
    → NodupIds (filing_ids (insert_rows rows table).0)
unfolding insert_rows
insert_rows-NodupIds [] table n = n
insert_rows-NodupIds (f ∷ rows) table n =
    elim (Bool-cases (one_of (filing_ids table) f.filing_id)) [
      | inl old ↦ rw old (insert_rows-NodupIds rows table n)
      | inr new ↦ rw new (
          insert_rows-NodupIds rows (table ++ f ∷ [])
            (rw map-append (NodupIds-append (filing_ids table) f.filing_id new n)))
    ]

-- `RETURNING` names the rows whose key was free.
one_of-insert_rows :
    (rows table : List Filing) (id : Text)
    → one_of (insert_rows rows table).1 id
      ≡ (one_of (filing_ids rows) id && not (one_of (filing_ids table) id))
unfolding insert_rows one_of
one_of-insert_rows [] table id = refl
one_of-insert_rows (f ∷ rows) table id = ground (
  arith,
  one_of-insert_rows rows table id,
  one_of-insert_rows rows (table ++ f ∷ []) id,
  map-append (λ (g : Filing). g.filing_id) table (f ∷ []),
  one_of-append (filing_ids table) (f.filing_id ∷ []) id,
  text_eq_iff f.filing_id id,
  text_eq_iff id f.filing_id,
)

-- Each entry's row carries the id of its filing.
module _ {E : Type 0} (entry_id : E → Text) (row_of : E → Filing)
    (row_id : (e : E) → (row_of e).filing_id ≡ entry_id e) where
  pub get_filing-row_of :
      (entries : List E) (id : Text)
      → get_filing id (map row_of entries) ≡ map_option row_of (find_entry entry_id id entries)
  unfolding get_filing find_entry
  get_filing-row_of [] id = refl
  get_filing-row_of (e ∷ entries) id = ground (arith, get_filing-row_of entries id, row_id e)

  find_entry-keep :
      (p : Text → Bool) (entries : List E) (id : Text)
      → find_entry entry_id id (keep (λ e. p (entry_id e)) entries)
        ≡ (if p id then find_entry entry_id id entries else none)
  unfolding find_entry
  find_entry-keep p [] id = ground arith
  find_entry-keep p (e ∷ entries) id =
      ground (arith, find_entry-keep p entries id, text_eq_iff (entry_id e) id)

  insert_statement_lem :
      (later : List Filing) (es : List E)
      → let (stored, ids) = insert_rows (map row_of es) later in
        insert_statement entry_id row_of later es ≡ (stored, keep (λ x. one_of ids (entry_id x)) es)
  unfolding insert_statement
  insert_statement_lem later [] = refl
  insert_statement_lem later (e ∷ es) = refl

  pub filing_ids-row_of : (es : List E) → filing_ids (map row_of es) ≡ map entry_id es
  filing_ids-row_of [] = refl
  filing_ids-row_of (e ∷ es) = ap₂ ◌∷◌ (row_id e) (filing_ids-row_of es)

  module _ (meanwhile : List Filing → List Filing) (entries : List E) (table : List Filing) where
    abbrev pub new : List E
    new = new_entries entry_id entries (filing_ids table)

    abbrev pub rows : List Filing
    rows = map row_of new

    pub run_lem : insert_new_filings entry_id meanwhile row_of entries table ≡ (
      (insert_rows rows (meanwhile table)).0,
      keep (λ x. one_of (insert_rows rows (meanwhile table)).1 (entry_id x)) new,
    )
    unfolding insert_new_filings
    run_lem = insert_statement_lem (meanwhile table) new

    -- The table after the insertion: every row that stands there when the INSERT runs is kept as it is.
    -- A filing without such a row gets that of its first entry, unless it was stored at the SELECT.
    pub get_filing-insert_new_filings :
        (id : Text)
        → get_filing id (insert_new_filings entry_id meanwhile row_of entries table).0
          ≡ or_else (get_filing id (meanwhile table)) (
              if one_of (filing_ids table) id
              then none
              else map_option row_of (find_entry entry_id id entries))
    get_filing-insert_new_filings id =
        ap (λ r. get_filing id r.0) (run_lem)
        ∙ get_filing-insert_rows (map row_of new) (meanwhile table) id
        ∙ ap (or_else (get_filing id (meanwhile table))) (
            get_filing-row_of new id
            ∙ ap (map_option row_of) (find_entry-new_entries entry_id entries (filing_ids table) id)
            ∙ ground arith)

    -- The entries that are returned, and so announced, are the first ones of just the filings that this
    -- insertion stored.
    find_entry-insert_new_filings :
        (id : Text)
        → find_entry entry_id id (insert_new_filings entry_id meanwhile row_of entries table).1 ≡ (
            if one_of (filing_ids table) id || one_of (filing_ids (meanwhile table)) id
            then none
            else find_entry entry_id id entries)
    find_entry-insert_new_filings id =
        ap (λ r. find_entry entry_id id r.1) run_lem
        ∙ find_entry-keep (one_of (insert_rows rows (meanwhile table)).1) new id
        ∙ ground (
          arith,
          one_of-insert_rows rows (meanwhile table) id,
          ap (λ ids. one_of ids id) (filing_ids-row_of new),
          is_some-find_entry entry_id id new,
          find_entry-new_entries entry_id entries (filing_ids table) id,
        )

    -- The primary key holds after the insertion if the other writers kept it.
    insert_new_filings-NodupIds :
        NodupIds (filing_ids (meanwhile table))
        → NodupIds (filing_ids (insert_new_filings entry_id meanwhile row_of entries table).0)
    insert_new_filings-NodupIds n = rw run_lem (insert_rows-NodupIds rows (meanwhile table) n)

  -- An insertion that is repeated, with no other writer in between, stores and returns nothing, if the
  -- other writers of the first one deleted no filing. The rows that it would write may be others.
  pub insert_new_filings_twice :
      (meanwhile : List Filing → List Filing) (again : E → Filing) (entries : List E)
      (table : List Filing)
      → ((id : Text)
          → one_of (filing_ids table) id ≡ true
          → one_of (filing_ids (meanwhile table)) id ≡ true)
      → let stored = (insert_new_filings entry_id meanwhile row_of entries table).0 in
        insert_new_filings entry_id (λ t. t) again entries stored ≡ (stored, [])
  unfolding insert_new_filings
  insert_new_filings_twice meanwhile again entries table keeps =
      let stored = (insert_new_filings entry_id meanwhile row_of entries table).0 in
      ap (insert_statement entry_id again stored) (
        eq_nil_of_find entry_id (new_entries entry_id entries (filing_ids stored)) λ id. ground (
          arith,
          find_entry-new_entries entry_id entries (filing_ids stored) id,
          is_some-get_filing id stored,
          is_some-get_filing id (meanwhile table),
          get_filing-insert_new_filings meanwhile entries table id,
          keeps id,
        ))
