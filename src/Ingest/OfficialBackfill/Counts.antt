-- ===== src/Ingest/OfficialBackfill/Counts.antt =====
-- The totals of a backfill that ends are the filings that it stored.
use evnt_trden_public.Base.{
  ℕ, ◌+◌, ◌-◌, ◌≡◌, refl, ap, ◌∙◌, List, [], ◌∷◌, map, length, length-append, length-map,
  range_from, Text, arith, ◌≤◌,
}
use evnt_trden_public.Db.{Filing, Db}
use evnt_trden_public.Db.Rows.{filing_ids}
use evnt_trden_public.Sources.House.{HouseIndexEntry}
use evnt_trden_public.Sources.Senate.{SenateIndexEntry}
use evnt_trden_public.Ingest.Index
use evnt_trden_public.Ingest.Index.{Fetched, fetched, fetch_failed, Outcome, inserted, IndexRun}
use evnt_trden_public.Ingest.Index.Alone.{insert_new_filings_alone}
use evnt_trden_public.Ingest.House
use evnt_trden_public.Ingest.House.{backfill_house_year}
use evnt_trden_public.Ingest.Senate
use evnt_trden_public.Ingest.Senate.{backfill_senate_since, backfill_chunk_size}
use evnt_trden_public.Ingest.Senate.Chunks.{insert_chunks-chunked}
use evnt_trden_public.Ingest.OfficialBackfill.{
  Moments, Totals, counted, raised, go_on, house_run, senate_run, backfill_years, backfill_all,
}

-- The table grew by the filings that the run counts.
abbrev Grew : Db → Db → Outcome → Type 0
Grew db later (inserted n) = length later.filings ≡ length db.filings + n
Grew db later (Index.raised error) = length later.filings ≡ length db.filings

module _ {E : Type 0} (entry_id : E → Text) (row_of : E → Filing)
    (row_id : (e : E) → (row_of e).filing_id ≡ entry_id e) where
  length-insert_new_filings :
      (entries : List E) (table : List Filing)
      → let (later, new) = Index.insert_new_filings entry_id (λ t. t) row_of entries table in
        length later ≡ length table + length new
  length-insert_new_filings entries table =
      let new = Index.new_entries entry_id entries (filing_ids table) in
      rw (insert_new_filings_alone entry_id row_of row_id entries table)
        (length-append table (map row_of new) ∙ ap (◌+◌ (length table)) (length-map row_of new))

module _ (at : Moments) where
  house_Grew :
      (index : Fetched HouseIndexEntry) (db : Db)
      → let r = backfill_house_year (λ t. t) at.started at.now at.finished index db in
        Grew db r.db r.outcome
  unfolding backfill_house_year House.insert_new_filings House.filing_of Index.record_scrape_run
  house_Grew (fetch_failed error) db = refl
  house_Grew (fetched es) db =
      length-insert_new_filings House.entry_id (House.filing_of (House.backfill_first_seen at.now))
        (λ e. refl) es db.filings

  senate_Grew :
      (index : Fetched SenateIndexEntry) (db : Db)
      → let r = backfill_senate_since (λ t. t) at.started at.now at.finished index db in
        Grew db r.db r.outcome
  unfolding backfill_senate_since Senate.insert_new_filings Senate.filing_of Index.record_scrape_run
  senate_Grew (fetch_failed error) db = refl
  senate_Grew (fetched es) db =
      rw
        (insert_chunks-chunked at.started at.now at.finished backfill_chunk_size es db.filings
          (omega arith))
        (length-insert_new_filings Senate.entry_id
          (Senate.filing_of (Senate.backfill_first_seen at.now)) (λ e. refl) es db.filings)

-- What a run leaves, by how it ended: just the filings that it counts besides those of before, or at least
-- as many as before. `total` were counted already.
abbrev CountsFrom : ℕ → Db → Db × Totals → Type 0
CountsFrom total db (later, counted house_total senate_total) =
    length later.filings + total ≡ length db.filings + house_total + senate_total
CountsFrom total db (later, raised error) = length db.filings ≤ length later.filings

abbrev pub Counts : Db → Db × Totals → Type 0
Counts = CountsFrom 0

go_on-CountsFrom :
    (total : ℕ) (db later : Db) (outcome : Outcome) (rest : ℕ → Db → Db × Totals)
    → Grew db later outcome
    → ((n : ℕ) → CountsFrom (total + n) later (rest n later))
    → CountsFrom total db (go_on rest later outcome)
unfolding go_on
go_on-CountsFrom total db later (inserted n) rest g c = grew_by (rest n later) (c n)
  where
    grew_by : (end : Db × Totals) → CountsFrom (total + n) later end → CountsFrom total db end
    grew_by (last, counted h s) e = omega (arith, e, g)
    grew_by (last, raised error) e = omega (arith, e, g)
go_on-CountsFrom total db later (Index.raised error) rest g c = omega (arith, g)

module _ (clock : ℕ → Moments) (senate_clock : Moments) (house_index : ℕ → Fetched HouseIndexEntry)
    (senate_index : Fetched SenateIndexEntry) where
  years_CountsFrom :
      (years : List ℕ) (total : ℕ) (db : Db)
      → CountsFrom total db
          (backfill_years (λ t. t) clock senate_clock house_index senate_index years total db)
  unfolding backfill_years house_run senate_run
  years_CountsFrom [] total db =
      go_on-CountsFrom total db
        (senate_run (λ t. t) clock senate_clock house_index senate_index db).db
        (senate_run (λ t. t) clock senate_clock house_index senate_index db).outcome
        (λ senate_total later. (later, counted total senate_total))
        (senate_Grew senate_clock senate_index db) (λ n. omega arith)
  years_CountsFrom (year ∷ years) total db =
      let at = clock year in
      let run = backfill_house_year (λ t. t) at.started at.now at.finished (house_index year) db in
      go_on-CountsFrom total db run.db run.outcome
        (λ n. backfill_years (λ t. t) clock senate_clock house_index senate_index years (total + n))
        (house_Grew at (house_index year) db) (λ n. years_CountsFrom years (total + n) run.db)

  -- With no other writer, the totals of a backfill that ends are together the number of filings that it
  -- added; one that an exception ends has removed none.
  pub backfill_all-Counts :
      (start_year this_year : ℕ) (db : Db)
      → Counts db (
          backfill_all (λ t. t) clock senate_clock house_index senate_index start_year this_year db)
  unfolding backfill_all
  backfill_all-Counts start_year this_year db =
      years_CountsFrom (range_from start_year (this_year + 1 - start_year)) 0 db
