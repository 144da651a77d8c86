-- ===== src/Ingest/Senate/Chunks.antt =====
-- A backfill in chunks is one insertion of the whole index.
use evnt_trden_public.Base.{ℕ, ◌<◌, ◌≡◌, refl, sym, ap, ◌∙◌, List, [], ◌∷◌, length, length-append}
use evnt_trden_public.Base.Chunks.{concat, chunked, concat-chunked}
use evnt_trden_public.Db.{Filing}
use evnt_trden_public.Sources.Senate.{SenateIndexEntry}
use evnt_trden_public.Ingest.Index
use evnt_trden_public.Ingest.Index.Alone.{insert_new_filings-append}
use evnt_trden_public.Ingest.Senate.{
  entry_id, filing_of, insert_new_filings, backfill_first_seen, insert_chunks,
}

module _ (started now finished : ℕ) where
  abbrev whole : List SenateIndexEntry → List Filing → List Filing × List SenateIndexEntry
  whole = insert_new_filings (λ t. t) (backfill_first_seen now)

  row_id : (e : SenateIndexEntry) → (filing_of (backfill_first_seen now) e).filing_id ≡ entry_id e
  unfolding filing_of
  row_id e = refl

  insert_chunks_lem :
      (cs : List (List SenateIndexEntry)) (table : List Filing)
      → let (stored, new) = whole (concat cs) table in
        insert_chunks (λ t. t) started now finished cs table ≡ (stored, length new)
  unfolding insert_chunks concat insert_new_filings Index.insert_new_filings
  insert_chunks_lem [] table = refl
  insert_chunks_lem (c ∷ cs) table =
      let (stored, first) = whole c table in
      let (last, second) = whole (concat cs) stored in
      rw
        (
          insert_chunks_lem cs stored,
          insert_new_filings-append entry_id (filing_of (backfill_first_seen now)) row_id c
              (concat cs) table,
        )
        (ap (λ n. (last, n)) (sym (length-append first second)))

  -- With no other writer a backfill in chunks, of any size, leaves the table that one insertion of the
  -- whole index leaves, and counts as many filings as that insertion returns: a filing that stands in
  -- two chunks is stored and counted once.
  pub insert_chunks-chunked :
      (size : ℕ) (entries : List SenateIndexEntry) (table : List Filing)
      → 0 < size
      → let (stored, new) = insert_new_filings (λ t. t) (backfill_first_seen now) entries table in
        insert_chunks (λ t. t) started now finished (chunked size entries) table
        ≡ (stored, length new)
  insert_chunks-chunked size entries table pos =
      insert_chunks_lem (chunked size entries) table
      ∙ ap (λ es. ((whole es table).0, length (whole es table).1)) (concat-chunked size entries pos)
