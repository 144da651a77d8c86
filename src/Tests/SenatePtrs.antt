-- ===== src/Tests/SenatePtrs.antt =====
-- A run of the Senate report step over one report that is served and one that is not.
use evnt_trden_public.Base.{
  ℕ, ◌≡◌, refl, false, Option, none, [], ◌∷◌, map, Text, codes, has_code, if◌then◌else◌,
}
use evnt_trden_public.Db.{Filing, senate, electronic, pending, parsed, failed}
use evnt_trden_public.Tests.Senate.{table_rows}
use evnt_trden_public.Ingest.SenatePtrs.{
  Response, State, PtrRun, parse_pending_senate_ptrs, fetch_pending,
}
use evnt_trden_public.Ingest.SenatePtrs.Finished.{Finished, parse_pending_senate_ptrs-Finished}
use evnt_trden_public.Ingest.SenatePtrs.{
  waits, add_rows, after_save, go_on, handle_response, mark_failed, parse_batch, save_transactions,
}
use evnt_trden_public.Base.{text_eq, starts_with, is_space, strip, lower, split_once, dict_get}
use evnt_trden_public.Parsers.SenatePtr.{
  parse_ptr_html, parse_rows, cells_of, read_cells, extract_option_details, parse_date,
  read_us_date, strip_option_details, clean_dash,
}
use evnt_trden_public.Base.Regex.{find_match, word_any_case, group_of}
use evnt_trden_public.Base.Calendar.{from_iso, is_date}
use evnt_trden_public.Db.{get_filing, update_filing}
use evnt_trden_public.Ingest.HousePdfs.{upload_outcome}
use evnt_trden_public.Ingest.HousePtrs.{commit, unique_keys}
use evnt_trden_public.Storage.Quota.{
  archive_object, current_usage_bytes, ensure_budget, get_usage, would_exceed,
}

abbrev filing : Text → Filing
filing id = record {
  filing_id = id;
  chamber = senate;
  filer_name = codes "Doe, Jane";
  bioguide_id = none;
  filing_type = codes "P";
  filed_date = none;
  first_seen_at = 0;
  first_seen_precision_s = 60;
  format = electronic;
  parse_status = pending;
  raw_object_key = none;
  raw_sha256 = none;
  supersedes_filing_id = none;
}

abbrev state : State
state = record {
  archive = record { objects = []; usage = [] };
  db = record {
    filings = filing (codes "senate:a") ∷ filing (codes "senate:9") ∷ [];
    transactions = [];
    dq_issues = [];
    scrape_runs = [];
  };
}

site : Text → Response
site url = record { status_code = if has_code b'9' url then 404 else 200; text = codes "page" }

sha256_hex : Text → Text
sha256_hex t = t

upload_error : Text → Option Text
upload_error key = none

row_key : Text → ℕ → ℕ
row_key id i = i

abbrev run : PtrRun
run = parse_pending_senate_ptrs row_key site table_rows sha256_hex upload_error 1000 25 state

-- The report with a table is parsed, the other failed.
outcome :
    (run.crashed ≡ false)
    × (run.parsed_ids ≡ codes "senate:a" ∷ [])
    × (map (λ f. f.parse_status) run.state.db.filings ≡ parsed ∷ failed ∷ [])
    × (map (λ t. t.row_index) run.state.db.transactions ≡ 0 ∷ 2 ∷ [])
unfolding parse_pending_senate_ptrs site has_code upload_error sha256_hex waits text_eq starts_with
    parse_ptr_html parse_rows cells_of read_cells extract_option_details find_match word_any_case
    is_space from_iso group_of parse_date strip read_us_date is_date lower split_once get_filing
    update_filing upload_outcome commit unique_keys add_rows after_save go_on handle_response
    mark_failed parse_batch save_transactions archive_object current_usage_bytes ensure_budget
    get_usage would_exceed strip_option_details clean_dash dict_get
outcome = (refl, refl, refl, refl)

parse_pending_senate_ptrs-Finished_example :
    Finished row_key site table_rows sha256_hex upload_error 1000 state.db
      (fetch_pending 25 state.db)
      run
parse_pending_senate_ptrs-Finished_example =
    parse_pending_senate_ptrs-Finished row_key site table_rows sha256_hex upload_error 1000 25 state
      outcome.0
