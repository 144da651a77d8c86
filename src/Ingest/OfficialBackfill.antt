-- ===== src/Ingest/OfficialBackfill.antt =====
-- src/congress_collector/ingest/official_backfill.py: the indices of all years, of both chambers. What
-- the sites give and the moments of each call are arguments.
pub mod Counts
use evnt_trden_public.Base.{ℕ, ◌+◌, ◌-◌, List, [], ◌∷◌, range_from, Text}
use evnt_trden_public.Db.{Filing, Db}
use evnt_trden_public.Sources.House.{HouseIndexEntry}
use evnt_trden_public.Sources.Senate.{SenateIndexEntry}
use evnt_trden_public.Ingest.Index.{Fetched, Outcome, inserted, IndexRun}
use evnt_trden_public.Ingest.Index
use evnt_trden_public.Ingest.House.{backfill_house_year}
use evnt_trden_public.Ingest.Senate.{backfill_senate_since}

abbrev pub backfill_start_year : ℕ
backfill_start_year = 2012

-- When a call starts, asks for the time and ends.
pub record Moments : Type 0 where
  pub started : ℕ
  pub now : ℕ
  pub finished : ℕ

-- The new filings of the House and of the Senate, or the exception that ended the run.
pub data Totals : Type 0 where
  counted : ℕ → ℕ → Totals
  raised : Text → Totals

-- A call's exception ends the run, with what is stored by then.
unfoldable pub go_on : (ℕ → Db → Db × Totals) → Db → Outcome → Db × Totals
go_on rest db (inserted n) = rest n db
go_on rest db (Index.raised error) = (db, raised error)

module _ (meanwhile : List Filing → List Filing) (clock : ℕ → Moments) (senate_clock : Moments)
    (house_index : ℕ → Fetched HouseIndexEntry) (senate_index : Fetched SenateIndexEntry) where
  unfoldable pub house_run : ℕ → Db → IndexRun
  house_run year db =
      let at = clock year in
      backfill_house_year meanwhile at.started at.now at.finished (house_index year) db

  unfoldable pub senate_run : Db → IndexRun
  senate_run db =
      let at = senate_clock in
      backfill_senate_since meanwhile at.started at.now at.finished senate_index db

  -- The loop over the years, and the Senate after it.
  unfoldable pub backfill_years : List ℕ → ℕ → Db → Db × Totals
  unfolding go_on
  backfill_years [] house_total db =
      let run = senate_run db in
      go_on (λ senate_total later. (later, counted house_total senate_total)) run.db run.outcome
  backfill_years (year ∷ years) house_total db =
      let run = house_run year db in
      go_on (λ n. backfill_years years (house_total + n)) run.db run.outcome

  unfoldable pub backfill_all : ℕ → ℕ → Db → Db × Totals
  unfolding backfill_years
  backfill_all start_year this_year =
      backfill_years (range_from start_year (this_year + 1 - start_year)) 0
