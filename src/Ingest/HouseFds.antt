-- ===== src/Ingest/HouseFds.antt =====
-- src/congress_collector/ingest/house_fds.py: archived House annual reports are classified and parsed into
-- rows of `holdings`. The archive and the text extraction are an argument.
pub mod Rows
pub mod Finished
use evnt_trden_public.Base.{
  ℕ, ◌+◌, Bool, true, false, ◌&&◌, ◌||◌, not, Option, none, some, is_some, value_or, List, [], ◌∷◌,
  ◌++◌, map, keep, any, take, count_if, length, ◌==◌, if◌then◌else◌, Text, codes, text_eq, is_empty,
}
use evnt_trden_public.Base.Float.{Float}
use evnt_trden_public.Base.Calendar.{Date, date_lt}
use evnt_trden_public.Base.Sort.{sorted}
use evnt_trden_public.Db.{
  Filing, Db, DqIssue, Chamber, house, senate, electronic, scanned, parsed, failed, paper_deferred,
  get_filing, update_filing,
}
use evnt_trden_public.Parsers.HousePtr.{Word}
use evnt_trden_public.Parsers.HouseFd.Row.{ParsedHolding}
use evnt_trden_public.Parsers.HouseFd.{parse_schedule_a, report_year, has_schedule_a}
use evnt_trden_public.Ingest.HousePtrs.{Loaded, pages, load_error, is_unknown}

abbrev pub issue_type : Text
issue_type = codes "fd_parse_failed"

-- db/models.py, `Holding`, but for its key and the moment of its creation.
pub record Holding : Type 0 where
  pub filing_id : Text
  pub row_index : ℕ
  pub report_year : Option ℕ
  pub owner : Text
  pub asset_description_raw : Text
  pub ticker : Option Text
  pub asset_type : Option Text
  pub value_raw : Text
  pub value_min : Option Float
  pub value_max : Option Float
  pub income_type : Option Text
  pub income_raw : Option Text

-- The tables: those of `Db`, and `holdings`.
pub record Tables : Type 0 where
  pub db : Db
  pub holdings : List Holding

is_house : Chamber → Bool
is_house house = true
is_house senate = false

-- `_pending_filter`
unfoldable pub waits : Filing → Bool
unfolding is_house
waits f =
    is_house f.chamber
    && (text_eq f.filing_type (codes "O") && (is_unknown f.format && is_some f.raw_object_key))

unfoldable pub count_pending : Db → ℕ
count_pending db = count_if waits db.filings

-- `ORDER BY filed_date DESC`: the latest first, and before them those without a date.
date_le : Option Date → Option Date → Bool
date_le none b = true
date_le (some a) none = false
date_le (some a) (some b) = not (date_lt a b)

unfoldable pub latest_first : Filing → Filing → Bool
unfolding date_le
latest_first f g = date_le f.filed_date g.filed_date

id_and_key : Filing → Text × Text
id_and_key f = (f.filing_id, value_or [] f.raw_object_key)

unfoldable pub fetch_pending : ℕ → Db → List (Text × Text)
unfolding id_and_key latest_first
fetch_pending limit db =
    keep (λ p. not (is_empty p.1))
      (map id_and_key (take limit (sorted latest_first (keep waits db.filings))))

set_deferred : Filing → Filing
set_deferred f = record f { format = scanned; parse_status = paper_deferred }

set_failed : Filing → Filing
set_failed f = record f { format = electronic; parse_status = failed }

set_parsed : Filing → Filing
set_parsed f = record f { format = electronic; parse_status = parsed }

unfoldable pub mark_paper_deferred : Text → Tables → Tables
unfolding set_deferred
mark_paper_deferred id s = record s {
  db = record s.db { filings = update_filing id set_deferred s.db.filings };
}

unfoldable pub mark_failed : Text → Text → Tables → Tables
unfolding set_failed
mark_failed id detail s = record s {
  db = record s.db {
    filings = update_filing id set_failed s.db.filings;
    dq_issues =
        s.db.dq_issues
        ++ record {
          filing_id = some id;
          transaction_id = none;
          issue_type = issue_type;
          details = detail;
          resolved_at = none;
        }
          ∷ [];
  };
}

unfoldable pub holding_of : Text → Option ℕ → ParsedHolding → Holding
holding_of id year h = record {
  filing_id = id;
  row_index = h.row_index;
  report_year = year;
  owner = h.owner;
  asset_description_raw = h.asset_description_raw;
  ticker = h.ticker;
  asset_type = h.asset_type;
  value_raw = h.value_raw;
  value_min = h.value_min;
  value_max = h.value_max;
  income_type = h.income_type;
  income_raw = h.income_raw;
}

-- `UniqueConstraint("filing_id", "row_index")`
unfoldable pub key_taken : Text → ℕ → List Holding → Bool
key_taken id i [] = false
key_taken id i (h ∷ hs) = (text_eq h.filing_id id && h.row_index == i) || key_taken id i hs

unfoldable pub unique_keys : List Holding → Bool
unfolding key_taken
unique_keys [] = true
unique_keys (h ∷ hs) = not (key_taken h.filing_id h.row_index hs) && unique_keys hs

-- A commit, or the `IntegrityError` (`none`), which leaves everything as it was.
commit : Tables → Option Tables
commit s = if unique_keys s.holdings then some s else none

unfoldable pub save_holdings : Text → Option ℕ → List ParsedHolding → Tables → Option Tables
unfolding commit set_parsed
save_holdings id year hs s =
    if is_some (get_filing id s.db.filings)
    then commit (record {
      db = record s.db { filings = update_filing id set_parsed s.db.filings };
      holdings = s.holdings ++ map (holding_of id year) hs;
    })
    else some s

-- What a run comes to.
pub record FdRun : Type 0 where
  pub tables : Tables
  pub parsed : ℕ
  pub holdings_saved : ℕ
  pub other : ℕ

-- What one report comes to.
pub data Handled : Type 0 where
  saved : Tables → ℕ → Handled
  stored_already : Handled
  set_aside : Tables → Handled

after_save : ℕ → Option Tables → Handled
after_save n none = stored_already
after_save n (some s) = saved s n

unfoldable pub handle_pages : Text → Tables → List (List Word) → Handled
unfolding after_save
handle_pages id s words =
    if not (any (λ ws. not (is_empty ws)) words)
    then set_aside (mark_paper_deferred id s)
    else if not (has_schedule_a words)
    then set_aside (mark_failed id (codes "text layer but no Schedule A heading") s)
    else (let hs = parse_schedule_a words in
        after_save (length hs) (save_holdings id (report_year words) hs s))

unfoldable pub handle_loaded : Text → Tables → Loaded → Handled
unfolding handle_pages
handle_loaded id s (load_error message) =
    set_aside (mark_failed id (codes "download/extract failed: " ++ message) s)
handle_loaded id s (pages words) = handle_pages id s words

unfoldable pub go_on : (Tables → FdRun) → Tables → Handled → FdRun
go_on rest s stored_already = rest s
go_on rest s (saved next n) =
    let run = rest next in
    record run { parsed = run.parsed + 1; holdings_saved = run.holdings_saved + n }
go_on rest s (set_aside next) = let run = rest next in record run { other = run.other + 1 }

module _ (download : Text → Loaded) where
  unfoldable pub parse_batch : List (Text × Text) → Tables → FdRun
  unfolding go_on handle_loaded
  parse_batch [] s = record { tables = s; parsed = 0; holdings_saved = 0; other = 0 }
  parse_batch ((id, key) ∷ rest) s = go_on (parse_batch rest) s (handle_loaded id s (download key))

  unfoldable pub parse_pending_house_fds : ℕ → Tables → FdRun
  unfolding parse_batch fetch_pending
  parse_pending_house_fds batch_size s = parse_batch (fetch_pending batch_size s.db) s
