-- ===== src/Ingest/House.antt =====
-- src/congress_collector/ingest/house.py: new filings of the House index, and what is recorded of them.
-- The index itself, the clock and the other writers of the table are arguments.
pub mod Sync
use evnt_trden_public.Base.{
  ℕ, ◌+◌, ◌-◌, ◌*◌, Bool, true, ◌||◌, Option, none, some, List, [], ◌∷◌, ◌++◌, map, keep, length,
  take, ltb, if◌then◌else◌, Text, codes, one_of, join, is_empty,
}
use evnt_trden_public.Base.Decimal.{print_ℕ}
use evnt_trden_public.Base.Calendar.{Date, ordinal}
use evnt_trden_public.Db.{
  Filing, Db, ScrapeRun, RunStatus, run_success, run_failed, house, unknown, pending, get_filing,
}
use evnt_trden_public.Ingest.Index
use evnt_trden_public.Ingest.Index.{
  Outcome, inserted, raised, IndexRun, Fetched, fetched, fetch_failed, record_scrape_run, run_row,
}
use evnt_trden_public.Sources.House.{HouseIndexEntry, filing_id_for, filer_name_for, pdf_url_for}

abbrev pub default_precision_s : ℕ
default_precision_s = 300

abbrev pub notify_max_lines : ℕ
notify_max_lines = 15

abbrev pub backfill_day_precision_s : ℕ
backfill_day_precision_s = 86400

abbrev pub backfill_unknown_date_precision_s : ℕ
backfill_unknown_date_precision_s = 315360000

abbrev pub entry_id : HouseIndexEntry → Text
entry_id e = filing_id_for e.doc_id

unfoldable pub new_entries : List HouseIndexEntry → List Text → List HouseIndexEntry
new_entries = Index.new_entries entry_id

-- `(first_seen_at, first_seen_precision_s)` of an entry
abbrev pub FirstSeenFor : Type 0
FirstSeenFor = HouseIndexEntry → ℕ × ℕ

-- Midnight of the filed date, to the day; without one, now, with a precision that says so.
unfoldable pub backfill_first_seen : ℕ → FirstSeenFor
backfill_first_seen now e = elim e.filing_date [
  | none ↦ (now, backfill_unknown_date_precision_s)
  | some d ↦ (ordinal d * 86400, backfill_day_precision_s)
]

unfoldable pub filing_of : FirstSeenFor → HouseIndexEntry → Filing
filing_of first_seen_for e = record {
  filing_id = entry_id e;
  chamber = house;
  filer_name = filer_name_for e;
  bioguide_id = none;
  filing_type = e.filing_type;
  filed_date = e.filing_date;
  first_seen_at = (first_seen_for e).0;
  first_seen_precision_s = (first_seen_for e).1;
  format = unknown;
  parse_status = pending;
  raw_object_key = none;
  raw_sha256 = none;
  supersedes_filing_id = none;
}

-- `meanwhile` is what other writers do to the table between the SELECT and the INSERT.
unfoldable pub insert_new_filings :
    (List Filing → List Filing)
    → FirstSeenFor
    → List HouseIndexEntry
    → List Filing
    → List Filing × List HouseIndexEntry
unfolding filing_of
insert_new_filings meanwhile first_seen_for =
    Index.insert_new_filings entry_id meanwhile (filing_of first_seen_for)

notify_line : HouseIndexEntry → Text
notify_line e =
    filer_name_for e
    ++ (codes " ("
        ++ (e.filing_type ++ (codes ") — " ++ pdf_url_for e.doc_id e.filing_type e.year)))

-- The message: at most fifteen lines, and how many filings they leave out.
unfoldable pub notification : List HouseIndexEntry → Text
unfolding notify_line
notification entries =
    let lines = map notify_line (take notify_max_lines entries) in
    let remaining = length entries - length lines in
    codes "House: "
    ++ (print_ℕ (length entries)
        ++ (codes " new filing(s)\n"
            ++ join (10 ∷ []) (
                if ltb 0 remaining
                then lines ++ (codes "...and " ++ (print_ℕ remaining ++ codes " more")) ∷ []
                else lines)))

module _ (meanwhile : List Filing → List Filing) (started now finished : ℕ) where
  -- `sync_house_index` after `fetch_index`: a message only if something is new.
  unfoldable pub sync_house_index : ℕ → Fetched HouseIndexEntry → Db → IndexRun
  unfolding insert_new_filings record_scrape_run run_row
  sync_house_index precision_s (fetch_failed error) db = record {
    db = record_scrape_run (run_row house started finished run_failed 0 (some error)) db;
    message = none;
    outcome = raised error;
  }
  sync_house_index precision_s (fetched es) db =
      let (table, new) = insert_new_filings meanwhile (λ _. (now, precision_s)) es db.filings in
      let count = length new in
      record {
        db =
            record_scrape_run (run_row house started finished run_success count none)
              (record db { filings = table });
        message = if is_empty new then none else some (notification new);
        outcome = inserted count;
      }

  -- `backfill_house_year`: no message, and the moments of the filed dates.
  unfoldable pub backfill_house_year : Fetched HouseIndexEntry → Db → IndexRun
  unfolding insert_new_filings record_scrape_run run_row
  backfill_house_year (fetch_failed error) db = record {
    db = record_scrape_run (run_row house started finished run_failed 0 (some error)) db;
    message = none;
    outcome = raised error;
  }
  backfill_house_year (fetched es) db =
      let (table, new) = insert_new_filings meanwhile (backfill_first_seen now) es db.filings in
      let count = length new in
      record {
        db =
            record_scrape_run (run_row house started finished run_success count none)
              (record db { filings = table });
        message = none;
        outcome = inserted count;
      }
