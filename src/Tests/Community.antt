-- ===== src/Tests/Community.antt =====
-- Runs of the community archive's import on a few rows, and the theorems at them.
use evnt_trden_public.Base.{
  ◌≡◌, refl, true, not, none, some, List, [], ◌∷◌, count_if, is_empty, if◌then◌else◌, Text, codes,
  text_eq, one_of, dict_get, All, inl, inr, Option, map, arith,
}
use evnt_trden_public.Base.Float.{Float}
use evnt_trden_public.Db.{house}
use evnt_trden_public.Ingest.Index.{fetched, fetch_failed}
use evnt_trden_public.Sources.CommunityArchive.{
  null, string, JsonRow, CommunityRecord, house_source, fetch_house_stock_watcher, house_record,
  fetch_senate_stock_watcher,
}
use evnt_trden_public.Ingest.CommunityArchive.{
  CommunityTransaction, import_records, rematch_unmatched,
}
use evnt_trden_public.Ingest.CommunityArchive.Rows.{is_stored}
use evnt_trden_public.Ingest.CommunityArchive.Late.{rematch_unmatched-import_records}
use evnt_trden_public.Ingest.CommunityArchive.Report.{observed, survivorship_report}
use evnt_trden_public.Ingest.CommunityArchive.Report.Counts.{distinct_ids, named_by}
use evnt_trden_public.Ingest.CommunityArchive.Report.Matched.{
  IsSound, survivorship_report-rematch_unmatched,
}
use evnt_trden_public.Ingest.CommunityArchive.Main.{reported, raised, main}
use evnt_trden_public.Ingest.CommunityArchive.Main.Twice.{main_twice}
use evnt_trden_public.Base.{strip, remove_code, split_once, is_digit}
use evnt_trden_public.Sources.CommunityArchive.{clean, parse_date, str_or_empty}
use evnt_trden_public.Parsers.Amounts.{parse_amount_range}
use evnt_trden_public.Parsers.SenatePtr.{read_us_date}
use evnt_trden_public.Base.Calendar.{is_date}
use evnt_trden_public.Base.Regex.{find_match, word, group_of}
use evnt_trden_public.Ingest.CommunityArchive.Report.{observed_of, has_row}

abbrev hash : Text → Text
hash t = t

abbrev print_float : Float → Text
print_float f = codes "1.0"

abbrev house_row : Text → JsonRow
house_row id key =
    if text_eq key (codes "filing_id")
    then string id
    else if text_eq key (codes "ticker")
    then string (codes "--")
    else if text_eq key (codes "transaction_date")
    then string (codes " 01/05/2024 ")
    else if text_eq key (codes "type")
    then string (0 ∷ codes "purchase ")
    else null

abbrev senate_row : Text → JsonRow
senate_row link key = if text_eq key (codes "ptr_link") then string link else null

abbrev link : Text
link = codes "https://efdsearch.senate.gov/search/view/ptr/01234567-89ab-cdef-0123-456789abcdef/"

abbrev rows : List JsonRow
rows = house_row (codes "1") ∷ house_row (codes "2") ∷ house_row (codes "1") ∷ []

abbrev records : List CommunityRecord
records = fetch_house_stock_watcher rows

the_record : fetch_house_stock_watcher (house_row (codes "1") ∷ []) ≡ (
    record {
      source = house_source;
      chamber = house;
      external_filing_id = some (codes "house:1");
      filer_name = none;
      ticker = none;
      asset_description = none;
      asset_type = none;
      tx_type = some (codes "purchase");
      owner = none;
      tx_date = some (record { year = 2024; month = 1; day = 5 });
      disclosure_date = none;
      amount_min = none;
      amount_max = none;
    }
    ∷ [])
unfolding fetch_house_stock_watcher strip clean parse_date parse_amount_range str_or_empty text_eq
    remove_code read_us_date split_once is_digit is_date fetch_senate_stock_watcher find_match word
    group_of survivorship_report observed_of has_row one_of
the_record = refl

-- The id of the Senate's report is in the link.
the_link :
    map
      (λ (r : CommunityRecord). r.external_filing_id)
      (fetch_senate_stock_watcher (senate_row link ∷ senate_row [] ∷ []))
    ≡ some (codes "senate:01234567-89ab-cdef-0123-456789abcdef") ∷ none ∷ []
unfolding fetch_senate_stock_watcher find_match str_or_empty text_eq word group_of
    survivorship_report observed_of has_row one_of
the_link = refl

abbrev stored_row : Text → Option Text → CommunityTransaction
stored_row key matched = record {
  source = house_source;
  chamber = house;
  dedup_key = key;
  external_filing_id = some (codes "house:1");
  matched_filing_id = matched;
  filer_name = none;
  ticker = none;
  asset_description = none;
  asset_type = none;
  tx_type = none;
  owner = none;
  tx_date = none;
  disclosure_date = none;
  amount_min = none;
  amount_max = none;
}

abbrev stored_rows : List CommunityTransaction
stored_rows = stored_row (codes "a") (some (codes "house:1")) ∷ stored_row (codes "b") none ∷ []

-- One filing, of which one row is matched and one is not yet, is counted on both sides.
before_rematch :
    survivorship_report stored_rows ≡ (house_source, record { matched = 1; unmatched = 1 }) ∷ []
unfolding survivorship_report observed_of has_row text_eq one_of
before_rematch = refl

refused :
    main hash print_float [] (fetch_failed (codes "404")) (fetched []) []
    ≡ ([], raised (codes "404"))
unfolding main
refused = refl

sources : All (λ (r : CommunityRecord). r.source ≡ house_source) records
unfolding fetch_house_stock_watcher house_record
sources = (refl, (refl, (refl, tt)))

nothing_stored : (id : Text) → one_of [] id ≡ true → one_of (codes "house:1" ∷ []) id ≡ true
unfolding one_of
nothing_stored id h = absurd (ground (arith, h))

rematch_unmatched-import_records_example :
    let early = (import_records hash print_float [] house_source records []).0 in
    let rematched = (rematch_unmatched (codes "house:1" ∷ []) []).0 in
    (rematch_unmatched (codes "house:1" ∷ []) early).0
    ≡ (import_records hash print_float (codes "house:1" ∷ []) house_source records rematched).0
rematch_unmatched-import_records_example =
    rematch_unmatched-import_records hash print_float [] (codes "house:1" ∷ []) nothing_stored
      house_source records [] sources

sound : All (IsSound (codes "house:1" ∷ [])) stored_rows
unfolding one_of text_eq
sound = (inr (refl, refl), (inl refl, tt))

survivorship_report-rematch_unmatched_example :
    let ids = distinct_ids (named_by house_source (observed stored_rows)) in
    dict_get house_source
      (survivorship_report (rematch_unmatched (codes "house:1" ∷ []) stored_rows).0)
    ≡ (if is_empty ids
        then none
        else some (record {
          matched = count_if (λ id. is_stored (codes "house:1" ∷ []) (some id)) ids;
          unmatched = count_if (λ id. not (is_stored (codes "house:1" ∷ []) (some id))) ids;
        }))
survivorship_report-rematch_unmatched_example =
    survivorship_report-rematch_unmatched (codes "house:1" ∷ []) house_source stored_rows sound

main_twice_example :
    let (once, finish) =
      main hash print_float [] (fetched rows) (fetched (senate_row link ∷ [])) [] in
    main hash print_float [] (fetched rows) (fetched (senate_row link ∷ [])) once
    ≡ (once, reported 0 0 0 (survivorship_report once))
main_twice_example = main_twice hash print_float [] rows (senate_row link ∷ []) []
