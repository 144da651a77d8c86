-- ===== src/Tests/Ptrs.antt =====
-- A run of the House report step over one archived report.
use evnt_trden_public.Base.{ℕ, ◌≡◌, refl, false, some, [], ◌∷◌, Text, codes, text_eq}
use evnt_trden_public.Db.{Filing, Db, get_filing, update_filing}
use evnt_trden_public.Ingest.HousePtrs.{
  Loaded, pages, PtrRun, parse_pending_house_ptrs, fetch_pending, unique_keys, waits,
}
use evnt_trden_public.Ingest.HousePtrs.Rows.{below}
use evnt_trden_public.Ingest.HousePtrs.Classified.{Consistent}
use evnt_trden_public.Ingest.HousePtrs.Progress.{Finished, parse_pending_house_ptrs-Finished}
use evnt_trden_public.Tests.Pdfs.{filing}
use evnt_trden_public.Tests.Reports.{page}
use evnt_trden_public.Parsers.Amounts.{parse_amount_range, to_number}
use evnt_trden_public.Parsers.HousePtr.Lines.{group_lines, reading_le, near, x0_le, split_lines}
use evnt_trden_public.Parsers.HousePtr.Columns.{
  detect_column_bounds, header_word, header_bounds, position, find_column_bounds,
}
use evnt_trden_public.Parsers.HousePtr.Parse.{
  parse_ptr_transactions, act, annotation_label, flush, open_row, other_line, run_lines, run_pages,
  step, kind_of, is_header_line, line_text, line_starts_transaction, is_start_word,
}
use evnt_trden_public.Base.{
  abs, ◌+ℤ◌, ◌-ℤ◌, dict_get, has_code, has_text, is_digit, is_lower, is_space, is_upper, lower,
  lower_code, lstrip, one_of, remove_code, rstrip, rstrip_code, split_once, starts_with, strip,
  upper, upper_code, join,
}
use evnt_trden_public.Base.Float.{float, scan_digits}
use evnt_trden_public.Base.Regex.{
  find_match, group_of, is_word, match_at, match_start, word_any_case,
}
use evnt_trden_public.Base.Sort.{place, sorted}
use evnt_trden_public.Parsers.HousePtr.Patterns.{parse_option_details, to_iso_date, two_digits}
use evnt_trden_public.Parsers.HousePtr.Row.{
  add_description_words, classify_asset, describe_word, details_of, extend, extend_word, finalize,
  from_line, iso_or_none, matches, owner_of, place_word, tx_type_of,
}
use evnt_trden_public.Ingest.HousePtrs.{
  save_parsed, after_save, save_transactions, commit, add_rows, parse_iso_date,
}
use evnt_trden_public.Base.Calendar.{from_iso}
use evnt_trden_public.Parsers.HousePtr.Columns.{is_electronic}

abbrev archived : Filing
archived = record (filing (codes "house:2") (codes "P")) {
  raw_object_key = some (codes "house/2015/2.pdf");
}

abbrev db : Db
db = record { filings = archived ∷ []; transactions = []; dq_issues = []; scrape_runs = [] }

abbrev download : Text → Loaded
download key = pages (page ∷ [])

abbrev pub row_key : Text → ℕ → ℕ
row_key id i = i

abbrev run : PtrRun
run = parse_pending_house_ptrs row_key download 25 db

db-Consistent : Consistent db
db-Consistent = record {
  unique = unfold unique_keys in refl;
  untouched = λ id h. unfold below in refl;
}

run_test : run.crashed ≡ false
unfolding parse_pending_house_ptrs parse_ptr_transactions text_eq float scan_digits abs ◌+ℤ◌ ◌-ℤ◌
    find_match group_of is_word match_at match_start word_any_case place sorted dict_get has_code
    has_text is_digit is_lower is_space is_upper lower lower_code lstrip one_of remove_code rstrip
    rstrip_code split_once starts_with strip upper upper_code parse_amount_range to_number
    header_word header_bounds position find_column_bounds detect_column_bounds reading_le near x0_le
    group_lines split_lines act annotation_label flush open_row other_line run_lines run_pages step
    kind_of is_header_line line_text join line_starts_transaction is_start_word parse_option_details
    to_iso_date two_digits add_description_words classify_asset describe_word details_of extend
    extend_word finalize from_line iso_or_none matches owner_of place_word tx_type_of waits
    fetch_pending get_filing update_filing unique_keys is_electronic save_parsed after_save
    save_transactions commit add_rows parse_iso_date from_iso
run_test = refl

parse_pending_house_ptrs-Finished_example : Finished row_key db (fetch_pending 25 db) run
parse_pending_house_ptrs-Finished_example =
    parse_pending_house_ptrs-Finished row_key download 25 db db-Consistent run_test
