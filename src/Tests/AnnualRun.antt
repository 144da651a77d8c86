-- ===== src/Tests/AnnualRun.antt =====
-- A run of the annual report step over one report that is read and one that has no text.
use evnt_trden_public.Base.{
  ◌≡◌, refl, none, some, [], ◌∷◌, map, Text, codes, text_eq, if◌then◌else◌,
}
use evnt_trden_public.Db.{Filing, house, unknown, electronic, scanned, pending, get_filing}
use evnt_trden_public.Ingest.HousePtrs.{Loaded, pages}
use evnt_trden_public.Ingest.HouseFds.{Tables, FdRun, parse_pending_house_fds, fetch_pending}
use evnt_trden_public.Ingest.HouseFds.Finished.{
  Consistent, Finished, parse_pending_house_fds-Finished,
}
use evnt_trden_public.Tests.Annual.{pages as report}
use evnt_trden_public.Ingest.HouseFds.{unique_keys, waits, save_holdings}
use evnt_trden_public.Ingest.HouseFds.Rows.{has_rows}
use evnt_trden_public.Base.Sort.{sorted}
use evnt_trden_public.Ingest.HousePtrs.{is_unknown}
use evnt_trden_public.Parsers.HouseFd.{has_schedule_a, schedule_letter}
use evnt_trden_public.Parsers.HousePtr.Lines.{group_lines, near, x0_le}
use evnt_trden_public.Base.{ends_with, lower, rstrip_code}
use evnt_trden_public.Base.Regex.{match_start, word_any_case}
use evnt_trden_public.Parsers.HouseFd.{
  parse_schedule_a, kind_of, header_columns, is_footnote, is_annotation, all_empty, zones_of,
  opens_row, starts_value, owner_code, add_zones, act, add_line, columns_of, ends_schedule, first_x,
  flush, is_a, parse_lines, report_lines, report_year, second_x, year_of_line,
}
use evnt_trden_public.Parsers.HousePtr.Parse.{line_text}
use evnt_trden_public.Base.{
  join, has_code, one_of, abs, ◌-ℤ◌, dict_get, is_digit, is_lower, is_space, is_upper, lower_code,
  lstrip, non_empty, remove_code, rstrip, split_once, starts_with, strip, upper, upper_code,
}
use mathlib.Core.Bool.{xor}
use evnt_trden_public.Parsers.HouseFd.Row.{value_open, finalize, holder, joined}
use evnt_trden_public.Base.Calendar.{date_lt}
use evnt_trden_public.Base.Float.{float, scan_digits}
use evnt_trden_public.Base.Regex.{find_match, group_of, is_word, match_at}
use evnt_trden_public.Base.Sort.{place}
use evnt_trden_public.Db.{update_filing}
use evnt_trden_public.Ingest.HouseFds.{
  go_on, handle_loaded, handle_pages, holding_of, key_taken, latest_first, mark_failed,
  mark_paper_deferred, parse_batch,
}
use evnt_trden_public.Parsers.Amounts.{parse_amount_range, to_number}
use evnt_trden_public.Parsers.HousePtr.Lines.{reading_le, split_lines}
use evnt_trden_public.Parsers.HousePtr.Row.{classify_asset}

abbrev filing : Text → Filing
filing id = record {
  filing_id = id;
  chamber = house;
  filer_name = codes "Doe, Jane";
  bioguide_id = none;
  filing_type = codes "O";
  filed_date = none;
  first_seen_at = 0;
  first_seen_precision_s = 60;
  format = unknown;
  parse_status = pending;
  raw_object_key = some id;
  raw_sha256 = none;
  supersedes_filing_id = none;
}

abbrev tables : Tables
tables = record {
  db = record {
    filings = filing (codes "1") ∷ filing (codes "2") ∷ [];
    transactions = [];
    dq_issues = [];
    scrape_runs = [];
  };
  holdings = [];
}

download : Text → Loaded
download key = pages (if text_eq key (codes "1") then report else [] ∷ [])

tables-Consistent : Consistent tables
unfolding unique_keys has_rows parse_pending_house_fds download sorted waits text_eq is_unknown
    has_schedule_a group_lines near schedule_letter x0_le ends_with match_start word_any_case lower
    rstrip_code save_holdings get_filing
tables-Consistent = record { unique = refl; untouched = λ id h. refl }

abbrev run : FdRun
run = parse_pending_house_fds download 25 tables

formats : map (λ f. f.format) run.tables.db.filings ≡ electronic ∷ scanned ∷ []
unfolding parse_pending_house_fds download sorted waits text_eq is_unknown has_schedule_a
    group_lines near schedule_letter x0_le ends_with match_start word_any_case lower rstrip_code
    save_holdings get_filing unique_keys parse_schedule_a kind_of header_columns is_footnote
    line_text join is_annotation has_code all_empty zones_of opens_row starts_value one_of
    owner_code xor value_open add_zones date_lt float scan_digits abs ◌-ℤ◌ find_match group_of
    is_word match_at place dict_get is_digit is_lower is_space is_upper lower_code lstrip non_empty
    remove_code rstrip split_once starts_with strip upper upper_code update_filing fetch_pending
    go_on handle_loaded handle_pages holding_of key_taken latest_first mark_failed
    mark_paper_deferred parse_batch parse_amount_range to_number finalize holder joined act add_line
    columns_of ends_schedule first_x flush is_a parse_lines report_lines report_year second_x
    year_of_line reading_le split_lines classify_asset
formats = refl

rows : map (λ h. h.row_index) run.tables.holdings ≡ 0 ∷ 1 ∷ []
unfolding parse_pending_house_fds download sorted waits text_eq is_unknown has_schedule_a
    group_lines near schedule_letter x0_le ends_with match_start word_any_case lower rstrip_code
    save_holdings get_filing unique_keys add_zones date_lt float scan_digits abs ◌-ℤ◌ find_match
    group_of is_word match_at place dict_get is_digit is_lower is_space is_upper lower_code lstrip
    non_empty remove_code rstrip split_once starts_with strip upper upper_code update_filing
    fetch_pending go_on handle_loaded handle_pages holding_of key_taken latest_first mark_failed
    mark_paper_deferred parse_batch parse_amount_range to_number finalize holder joined act add_line
    columns_of ends_schedule first_x flush is_a parse_lines report_lines report_year second_x
    year_of_line reading_le split_lines classify_asset parse_schedule_a kind_of header_columns
    is_footnote line_text join is_annotation has_code all_empty zones_of opens_row starts_value
    owner_code xor value_open
rows = refl

parse_pending_house_fds-Finished_example : Finished tables (fetch_pending 25 tables.db) run
parse_pending_house_fds-Finished_example =
    parse_pending_house_fds-Finished download 25 tables tables-Consistent
