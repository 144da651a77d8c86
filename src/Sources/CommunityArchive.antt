-- ===== src/Sources/CommunityArchive.antt =====
-- src/congress_collector/sources/community_archive.py: the records of the two published datasets, from
-- the rows of their JSON files.
use evnt_trden_public.Base.{
  Bool, false, ◌||◌, not, Option, none, some, List, [], map, if◌then◌else◌, Text, codes, text_eq,
  strip, is_empty, remove_code,
}
use evnt_trden_public.Base.Calendar.{Date}
use evnt_trden_public.Base.Float.{Float}
use evnt_trden_public.Base.Regex.{
  Regex, Cursor, one, rep, group, ◌⊙◌, is_code, word, find_match, group_of,
}
use evnt_trden_public.Db.{Chamber, house, senate}
use evnt_trden_public.Parsers.Amounts.{parse_amount_range}
use evnt_trden_public.Parsers.SenatePtr.{read_us_date}
use evnt_trden_public.Sources.House
use evnt_trden_public.Sources.Senate
use evnt_trden_public.Sources.Senate.{is_uuid_code}

abbrev pub house_source : Text
house_source = codes "house_stock_watcher"

abbrev pub senate_source : Text
senate_source = codes "senate_stock_watcher"

-- A value of a JSON row: `None`, a string, or another value with its truth and its `str`.
pub data Json : Type 0 where
  null : Json
  string : Text → Json
  other : Bool → Text → Json

-- `row.get(…)`, which is `None` where the key is missing.
abbrev pub JsonRow : Type 0
JsonRow = Text → Json

truthy : Json → Bool
truthy null = false
truthy (string t) = not (is_empty t)
truthy (other truth t) = truth

-- `str(value)`
str_of : Json → Text
str_of null = codes "None"
str_of (string t) = t
str_of (other truth t) = t

-- `str(value or "")`
unfoldable pub str_or_empty : Json → Text
unfolding truthy str_of
str_or_empty v = if truthy v then str_of v else []

shown_text : Text → Option Text
shown_text t = if is_empty t || text_eq t (codes "--") then none else some t

-- `_clean`
unfoldable pub clean : Json → Option Text
unfolding shown_text str_of
clean null = none
clean v = shown_text (strip (remove_code 0 (str_of v)))

-- `_parse_date`
unfoldable pub parse_date : Json → Option Date
unfolding truthy str_of
parse_date v =
    let t = strip (str_of v) in if not (truthy v) || is_empty t then none else read_us_date t

-- Group 1 is `uuid`.
abbrev senate_ptr_uuid_re : Regex
senate_ptr_uuid_re =
    word (codes "/ptr/") ⊙ group 1 (rep is_uuid_code 36 (some 36)) ⊙ one (is_code b'/')

pub record CommunityRecord : Type 0 where
  pub source : Text
  pub chamber : Chamber
  pub external_filing_id : Option Text
  pub filer_name : Option Text
  pub ticker : Option Text
  pub asset_description : Option Text
  pub asset_type : Option Text
  pub tx_type : Option Text
  pub owner : Option Text
  pub tx_date : Option Date
  pub disclosure_date : Option Date
  pub amount_min : Option Float
  pub amount_max : Option Float

house_external_id : Text → Option Text
unfolding House.filing_id_for
house_external_id doc_id = if is_empty doc_id then none else some (House.filing_id_for doc_id)

unfoldable pub house_record : JsonRow → CommunityRecord
unfolding house_external_id
house_record row =
    let (low, high) = parse_amount_range (str_or_empty (row (codes "amount"))) in
    record {
      source = house_source;
      chamber = house;
      external_filing_id = house_external_id (strip (str_or_empty (row (codes "filing_id"))));
      filer_name = clean (row (codes "representative"));
      ticker = clean (row (codes "ticker"));
      asset_description = clean (row (codes "asset_description"));
      asset_type = clean (row (codes "asset_type"));
      tx_type = clean (row (codes "type"));
      owner = clean (row (codes "owner"));
      tx_date = parse_date (row (codes "transaction_date"));
      disclosure_date = parse_date (row (codes "disclosure_date"));
      amount_min = low;
      amount_max = high;
    }

unfoldable pub fetch_house_stock_watcher : List JsonRow → List CommunityRecord
unfolding house_record
fetch_house_stock_watcher = map house_record

unfoldable pub senate_external_id : Option Cursor → Option Text
unfolding Senate.filing_id_for
senate_external_id none = none
senate_external_id (some m) = some (Senate.filing_id_for (group_of 1 m))

-- The dataset has no disclosure date per transaction.
unfoldable pub senate_record : JsonRow → CommunityRecord
unfolding senate_external_id
senate_record row =
    let (low, high) = parse_amount_range (str_or_empty (row (codes "amount"))) in
    record {
      source = senate_source;
      chamber = senate;
      external_filing_id =
          senate_external_id
            (find_match senate_ptr_uuid_re (str_or_empty (row (codes "ptr_link"))));
      filer_name = clean (row (codes "senator"));
      ticker = clean (row (codes "ticker"));
      asset_description = clean (row (codes "asset_description"));
      asset_type = clean (row (codes "asset_type"));
      tx_type = clean (row (codes "type"));
      owner = clean (row (codes "owner"));
      tx_date = parse_date (row (codes "transaction_date"));
      disclosure_date = none;
      amount_min = low;
      amount_max = high;
    }

unfoldable pub fetch_senate_stock_watcher : List JsonRow → List CommunityRecord
unfolding senate_record
fetch_senate_stock_watcher = map senate_record
