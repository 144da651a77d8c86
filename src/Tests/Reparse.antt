-- ===== src/Tests/Reparse.antt =====
-- Reports that failed or were deferred, parsed again.
use evnt_trden_public.Base.{◌≡◌, refl, none, some, [], ◌∷◌, Text, codes, text_eq, if◌then◌else◌}
use evnt_trden_public.Db.{Filing, Db, failed, paper_deferred, electronic, scanned}
use evnt_trden_public.Ingest.HousePtrs.{Loaded, pages}
use evnt_trden_public.Ingest.ReparseFailedHousePtrs.{ReparseRun, reparse_failed_filings}
use evnt_trden_public.Ingest.ReparseFailedHousePtrs.Settled.{Settles}
use evnt_trden_public.Ingest.ReparseFailedHousePtrs.Untouched.{reparse_failed_filings-Settles}
use evnt_trden_public.Tests.Pdfs.{filing}
use evnt_trden_public.Tests.Ptrs.{row_key}
use evnt_trden_public.Tests.Reports.{page}
use evnt_trden_public.Ingest.HousePtrs.{Loaded, pages, unique_keys}
use evnt_trden_public.Parsers.Amounts.{parse_amount_range, to_number}
use evnt_trden_public.Parsers.HousePtr.Lines.{group_lines, reading_le, near, x0_le, split_lines}
use evnt_trden_public.Parsers.HousePtr.Columns.{
  detect_column_bounds, header_word, header_bounds, position, find_column_bounds,
}
use evnt_trden_public.Parsers.HousePtr.Parse.{
  parse_ptr_transactions, act, annotation_label, flush, open_row, other_line, run_lines, run_pages,
  step, kind_of, is_header_line, line_text, line_starts_transaction, is_start_word,
}
use evnt_trden_public.Base.{
  abs, ◌+ℤ◌, ◌-ℤ◌, dict_get, has_code, has_text, is_digit, is_lower, is_space, is_upper, lower,
  lower_code, lstrip, one_of, remove_code, rstrip, rstrip_code, split_once, starts_with, strip,
  upper, upper_code, join,
}
use evnt_trden_public.Base.Float.{float, scan_digits}
use evnt_trden_public.Base.Regex.{
  find_match, group_of, is_word, match_at, match_start, word_any_case,
}
use evnt_trden_public.Base.Sort.{place, sorted}
use evnt_trden_public.Parsers.HousePtr.Patterns.{parse_option_details, to_iso_date, two_digits}
use evnt_trden_public.Parsers.HousePtr.Row.{
  add_description_words, classify_asset, describe_word, details_of, extend, extend_word, finalize,
  from_line, iso_or_none, matches, owner_of, place_word, tx_type_of,
}
use evnt_trden_public.Ingest.HousePtrs.{commit, add_rows, parse_iso_date}
use evnt_trden_public.Base.Calendar.{from_iso}
use evnt_trden_public.Parsers.HousePtr.Columns.{is_electronic}
use evnt_trden_public.Db.{get_filing, update_filing}
use evnt_trden_public.Base.{text_eq}
use evnt_trden_public.Ingest.ReparseFailedHousePtrs.{of_saved, save_and_resolve}

abbrev pub failed_report : Filing
failed_report = record (filing (codes "house:2") (codes "P")) {
  raw_object_key = some (codes "house/2015/2.pdf");
  format = electronic;
  parse_status = failed;
}

abbrev scan : Filing
scan = record (filing (codes "house:3") (codes "P")) {
  raw_object_key = some (codes "house/2015/3.pdf");
  format = scanned;
  parse_status = paper_deferred;
}

abbrev pub db : Db
db = record {
  filings = failed_report ∷ scan ∷ [];
  transactions = [];
  dq_issues =
      record {
        filing_id = some (codes "house:2");
        transaction_id = none;
        issue_type = codes "ptr_parse_failed";
        details = [];
        resolved_at = none;
      }
      ∷ [];
  scrape_runs = [];
}

abbrev download : Text → Loaded
download key = if text_eq key (codes "house/2015/2.pdf") then pages (page ∷ []) else pages []

abbrev run : ReparseRun
run = reparse_failed_filings row_key 7 download db

one_parsed : run.now_parsed ≡ 1
unfolding reparse_failed_filings parse_ptr_transactions text_eq float scan_digits abs ◌+ℤ◌ ◌-ℤ◌
    find_match group_of is_word match_at match_start word_any_case place sorted dict_get has_code
    has_text is_digit is_lower is_space is_upper lower lower_code lstrip one_of remove_code rstrip
    rstrip_code split_once starts_with strip upper upper_code parse_amount_range to_number
    header_word header_bounds position find_column_bounds detect_column_bounds reading_le near x0_le
    group_lines split_lines act annotation_label flush open_row other_line run_lines run_pages step
    kind_of is_header_line line_text join line_starts_transaction is_start_word parse_option_details
    to_iso_date two_digits add_description_words classify_asset describe_word details_of extend
    extend_word finalize from_line iso_or_none matches owner_of place_word tx_type_of get_filing
    update_filing unique_keys is_electronic commit add_rows parse_iso_date from_iso of_saved
    save_and_resolve
one_parsed = refl

reparse_failed_filings-Settles_example : Settles (codes "house:3") db run.db
reparse_failed_filings-Settles_example =
    reparse_failed_filings-Settles 7 row_key download db (codes "house:3")
