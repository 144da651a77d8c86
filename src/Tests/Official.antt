-- ===== src/Tests/Official.antt =====
-- A backfill of two years and the Senate.
use evnt_trden_public.Base.{ℕ, ◌≡◌, refl, [], ◌∷◌, ◌==◌, if◌then◌else◌, length, codes}
use evnt_trden_public.Db.{Db}
use evnt_trden_public.Sources.House.{HouseIndexEntry}
use evnt_trden_public.Ingest.Index.{Fetched, fetched, fetch_failed}
use evnt_trden_public.Ingest.OfficialBackfill.{Moments, Totals, counted, raised, backfill_all}
use evnt_trden_public.Ingest.OfficialBackfill.Counts.{Counts, backfill_all-Counts}
use evnt_trden_public.Sources.Senate
use evnt_trden_public.Tests.Index
use evnt_trden_public.Tests.SenateIndex
use evnt_trden_public.Tests.SenateIndex.{empty_db}
use evnt_trden_public.Ingest.OfficialBackfill.{house_run, senate_run}
use evnt_trden_public.Ingest.House.{backfill_house_year}
use evnt_trden_public.Ingest.Senate.{backfill_senate_since}
use evnt_trden_public.Ingest.Index.{insert_new_filings}
use evnt_trden_public.Base.{one_of, text_eq}
use evnt_trden_public.Sources.House.{filing_id_for}

abbrev clock : ℕ → Moments
clock year = record { started = year; now = year; finished = year }

-- The second year has a filing of the first one again.
abbrev house_index : ℕ → Fetched HouseIndexEntry
house_index year = if year == 2012 then fetched Index.index else fetched (Index.first_entry ∷ [])

abbrev ended : Db × Totals
ended =
    backfill_all (λ t. t) clock (clock 2014) house_index (fetched SenateIndex.index) 2012 2013
      empty_db

all_counted : ended.1 ≡ counted 2 2
unfolding backfill_all house_run backfill_house_year senate_run backfill_senate_since
    insert_new_filings one_of text_eq filing_id_for Senate.filing_id_for
all_counted = refl

abbrev broken : Db × Totals
broken =
    backfill_all (λ t. t) clock (clock 2014) house_index (fetch_failed (codes "403")) 2012 2013
      empty_db

stored_before : (length broken.0.filings ≡ 2) × (broken.1 ≡ raised (codes "403"))
unfolding backfill_all house_run backfill_house_year senate_run backfill_senate_since
    insert_new_filings one_of text_eq filing_id_for
stored_before = (refl, refl)

backfill_all-Counts_example : Counts empty_db ended
backfill_all-Counts_example =
    backfill_all-Counts clock (clock 2014) house_index (fetched SenateIndex.index) 2012 2013
      empty_db
