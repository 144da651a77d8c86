-- ===== src/Ingest/Senate.antt =====
-- src/congress_collector/ingest/senate.py: new filings of the Senate index, and what is recorded of them.
-- What the index gives, the clock and the other writers of the table are arguments.
pub mod Chunks
pub mod Sync
use evnt_trden_public.Base.{
  ℕ, zero, suc, ◌+◌, ◌-◌, ◌*◌, Bool, Option, none, some, List, [], ◌∷◌, ◌++◌, map, length, take,
  drop, ltb, if◌then◌else◌, Text, codes, join, is_empty,
}
use evnt_trden_public.Base.Chunks.{chunked}
use evnt_trden_public.Base.Decimal.{print_ℕ}
use evnt_trden_public.Base.Calendar.{Date, ordinal}
use evnt_trden_public.Db.{
  Filing, Db, run_success, run_failed, senate, electronic, paper, pending, paper_deferred,
}
use evnt_trden_public.Sources.Senate.{SenateIndexEntry, filing_id_for, filer_name_for, view_url_for}
use evnt_trden_public.Ingest.Index
use evnt_trden_public.Ingest.Index.{
  inserted, raised, IndexRun, Fetched, fetched, fetch_failed, record_scrape_run, run_row,
}

abbrev pub lookback_days : ℕ
lookback_days = 14

abbrev pub notify_max_lines : ℕ
notify_max_lines = 15

abbrev pub backfill_day_precision_s : ℕ
backfill_day_precision_s = 86400

abbrev pub backfill_unknown_date_precision_s : ℕ
backfill_unknown_date_precision_s = 315360000

abbrev pub backfill_chunk_size : ℕ
backfill_chunk_size = 500

abbrev pub entry_id : SenateIndexEntry → Text
entry_id e = filing_id_for e.report_uuid

unfoldable pub new_entries : List SenateIndexEntry → List Text → List SenateIndexEntry
new_entries = Index.new_entries entry_id

abbrev pub FirstSeenFor : Type 0
FirstSeenFor = SenateIndexEntry → ℕ × ℕ

-- Midnight of the submitted date, to the day; without one, now, with a precision that says so.
unfoldable pub backfill_first_seen : ℕ → FirstSeenFor
backfill_first_seen now e = elim e.filed_date [
  | none ↦ (now, backfill_unknown_date_precision_s)
  | some d ↦ (ordinal d * 86400, backfill_day_precision_s)
]

unfoldable pub filing_of : FirstSeenFor → SenateIndexEntry → Filing
filing_of first_seen_for e = record {
  filing_id = entry_id e;
  chamber = senate;
  filer_name = filer_name_for e;
  bioguide_id = none;
  filing_type = codes "P";
  filed_date = e.filed_date;
  first_seen_at = (first_seen_for e).0;
  first_seen_precision_s = (first_seen_for e).1;
  format = if e.is_electronic then electronic else paper;
  parse_status = if e.is_electronic then pending else paper_deferred;
  raw_object_key = none;
  raw_sha256 = none;
  supersedes_filing_id = none;
}

-- `meanwhile` is what other writers do to the table between the SELECT and the INSERT.
unfoldable pub insert_new_filings :
    (List Filing → List Filing)
    → FirstSeenFor
    → List SenateIndexEntry
    → List Filing
    → List Filing × List SenateIndexEntry
unfolding filing_of
insert_new_filings meanwhile first_seen_for =
    Index.insert_new_filings entry_id meanwhile (filing_of first_seen_for)

notify_line : SenateIndexEntry → Text
notify_line e = filer_name_for e ++ (codes " — " ++ view_url_for e.report_uuid e.is_electronic)

-- The message: at most fifteen lines, and how many filings they leave out.
unfoldable pub notification : List SenateIndexEntry → Text
unfolding notify_line
notification entries =
    let lines = map notify_line (take notify_max_lines entries) in
    let remaining = length entries - length lines in
    codes "Senate: "
    ++ (print_ℕ (length entries)
        ++ (codes " new filing(s)\n"
            ++ join (10 ∷ []) (
                if ltb 0 remaining
                then lines ++ (codes "...and " ++ (print_ℕ remaining ++ codes " more")) ∷ []
                else lines)))

module _ (meanwhile : List Filing → List Filing) (started now finished : ℕ) where
  -- `sync_senate_ptr_index` after `fetch_ptr_index`: a message only if something is new.
  unfoldable pub sync_senate_ptr_index : ℕ → Fetched SenateIndexEntry → Db → IndexRun
  unfolding insert_new_filings record_scrape_run run_row
  sync_senate_ptr_index precision_s (fetch_failed error) db = record {
    db = record_scrape_run (run_row senate started finished run_failed 0 (some error)) db;
    message = none;
    outcome = raised error;
  }
  sync_senate_ptr_index precision_s (fetched es) db =
      let (table, new) = insert_new_filings meanwhile (λ _. (now, precision_s)) es db.filings in
      let count = length new in
      record {
        db =
            record_scrape_run (run_row senate started finished run_success count none)
              (record db { filings = table });
        message = if is_empty new then none else some (notification new);
        outcome = inserted count;
      }

  -- The loop of `backfill_senate_since`: a commit for each chunk; the table and the count. The clock, which
  -- the code reads for each chunk, stands still.
  unfoldable pub insert_chunks : List (List SenateIndexEntry) → List Filing → List Filing × ℕ
  unfolding insert_new_filings
  insert_chunks [] table = (table, 0)
  insert_chunks (chunk ∷ rest) table =
      let (stored, new) = insert_new_filings meanwhile (backfill_first_seen now) chunk table in
      let (last, count) = insert_chunks rest stored in (last, length new + count)

  -- `backfill_senate_since`: no message, and the moments of the submitted dates.
  unfoldable pub backfill_senate_since : Fetched SenateIndexEntry → Db → IndexRun
  unfolding insert_chunks record_scrape_run run_row chunked
  backfill_senate_since (fetch_failed error) db = record {
    db = record_scrape_run (run_row senate started finished run_failed 0 (some error)) db;
    message = none;
    outcome = raised error;
  }
  backfill_senate_since (fetched es) db =
      let (table, count) = insert_chunks (chunked backfill_chunk_size es) db.filings in
      record {
        db =
            record_scrape_run (run_row senate started finished run_success count none)
              (record db { filings = table });
        message = none;
        outcome = inserted count;
      }
