-- ===== src/Ingest/HousePtrs.antt =====
-- src/congress_collector/ingest/house_ptrs.py: archived House reports are classified and parsed into
-- rows of `transactions`. The archive and the text extraction are arguments, and so are the keys that the
-- database gives to new rows.
pub mod Rows
pub mod Added
pub mod Classified
pub mod Progress
use evnt_trden_public.Base.{
  ℕ, Bool, true, false, ◌&&◌, ◌||◌, not, Option, none, some, ◌>>=◌, is_some, value_or, List, [],
  ◌∷◌, ◌++◌, map, keep, any, take, count_if, length, ◌==◌, if◌then◌else◌, Text, codes, text_eq,
  is_empty,
}
use evnt_trden_public.Base.Decimal.{print_ℕ}
use evnt_trden_public.Base.Calendar.{Date, from_iso}
use evnt_trden_public.Db.{
  Filing, Transaction, Db, DqIssue, Format, electronic, paper, scanned, unknown, parsed, failed,
  paper_deferred, get_filing, update_filing, house, senate, Chamber,
}
use evnt_trden_public.Parsers.HousePtr.{Word, ParsedTransaction}
use evnt_trden_public.Parsers.HousePtr.Columns.{is_electronic}
use evnt_trden_public.Parsers.HousePtr.Parse.{parse_ptr_transactions}

is_house : Chamber → Bool
is_house house = true
is_house senate = false

unfoldable pub is_unknown : Format → Bool
is_unknown unknown = true
is_unknown electronic = false
is_unknown paper = false
is_unknown scanned = false

-- An archived House report that is not classified yet.
unfoldable pub waits : Filing → Bool
unfolding is_house is_unknown
waits f =
    is_house f.chamber
    && (text_eq f.filing_type (codes "P") && (is_unknown f.format && is_some f.raw_object_key))

unfoldable pub count_pending : Db → ℕ
count_pending db = count_if waits db.filings

id_and_key : Filing → Text × Text
id_and_key f = (f.filing_id, value_or [] f.raw_object_key)

unfoldable pub fetch_pending : ℕ → Db → List (Text × Text)
unfolding id_and_key
fetch_pending limit db =
    keep (λ p. not (is_empty p.1)) (map id_and_key (take limit (keep waits db.filings)))

set_deferred : Filing → Filing
set_deferred f = record f { format = scanned; parse_status = paper_deferred }

set_failed : Filing → Filing
set_failed f = record f { format = electronic; parse_status = failed }

unfoldable pub set_parsed : Filing → Filing
set_parsed f = record f { format = electronic; parse_status = parsed }

unfoldable pub mark_paper_deferred : Text → Db → Db
unfolding set_deferred
mark_paper_deferred id db = record db { filings = update_filing id set_deferred db.filings }

issue : Text → Text → Text → DqIssue
issue id type detail = record {
  filing_id = some id;
  transaction_id = none;
  issue_type = type;
  details = detail;
  resolved_at = none;
}

unfoldable pub mark_failed : Text → Text → Db → Db
unfolding set_failed issue
mark_failed id detail db = record db {
  filings = update_filing id set_failed db.filings;
  dq_issues = db.dq_issues ++ issue id (codes "ptr_parse_failed") detail ∷ [];
}

-- `_parse_iso_date`; the outer `none` is the `ValueError`.
unfoldable pub parse_iso_date : Option Text → Option (Option Date)
parse_iso_date none = some none
parse_iso_date (some []) = some none
parse_iso_date (some (c ∷ t)) = do d ← from_iso (c ∷ t); some (some d)

-- What a download and the text extraction give.
pub data Loaded : Type 0 where
  pages : List (List Word) → Loaded
  load_error : Text → Loaded

-- The constraint on (filing_id, row_index).
unfoldable pub key_taken : Text → ℕ → List Transaction → Bool
key_taken id i [] = false
key_taken id i (t ∷ ts) = (text_eq t.filing_id id && t.row_index == i) || key_taken id i ts

unfoldable pub unique_keys : List Transaction → Bool
unfolding key_taken
unique_keys [] = true
unique_keys (t ∷ ts) = not (key_taken t.filing_id t.row_index ts) && unique_keys ts

-- How `_save_transactions` ends: committed, or rolled back on an `IntegrityError` or another exception.
pub data Saved : Type 0 where
  committed : Db → Saved
  conflict : Saved
  aborted : Saved

pub record PtrRun : Type 0 where
  pub db : Db
  pub parsed_ids : List Text
  pub crashed : Bool

-- What one filing of the loop comes to: the tables and whether it counts as parsed, or an exception.
pub data Handled : Type 0 where
  went_on : Db → Bool → Handled
  raised : Handled

add_transaction : Transaction → Db → Db
add_transaction t db = record db { transactions = db.transactions ++ t ∷ [] }

add_issue : Text → ParsedTransaction → Db → Db
unfolding issue
add_issue id t db = record db {
  dq_issues =
      db.dq_issues
      ++ issue id (codes "unknown_tx_type") (
          codes "row "
          ++ (print_ℕ t.row_index ++ codes ": could not map to a known transaction type"))
        ∷ [];
}

unfoldable pub commit : Option Db → Saved
commit none = aborted
commit (some db) = if unique_keys db.transactions then committed db else conflict

unfoldable pub after_save : Db → Saved → Handled
after_save db (committed next) = went_on next true
after_save db conflict = went_on db false
after_save db aborted = raised

unfoldable pub go_on : Text → (Db → PtrRun) → Db → Handled → PtrRun
go_on id rest db raised = record { db = db; parsed_ids = []; crashed = true }
go_on id rest db (went_on next counts) =
    let run = rest next in if counts then record run { parsed_ids = id ∷ run.parsed_ids } else run

module _ (transaction_id_for : Text → ℕ → ℕ) where
  unfoldable pub transaction_of : Text → ParsedTransaction → Text → Option Transaction
  transaction_of id t tx_type = do
    expiry ← parse_iso_date t.expiry
    tx_date ← parse_iso_date t.tx_date
    notification_date ← parse_iso_date t.notification_date
    some (record {
      transaction_id = transaction_id_for id t.row_index;
      filing_id = id;
      row_index = t.row_index;
      owner = t.owner;
      asset_description_raw = t.asset_description_raw;
      asset_type = t.asset_type;
      ticker = t.ticker;
      instrument_id = none;
      option_type = t.option_type;
      strike = t.strike;
      expiry = expiry;
      tx_type = tx_type;
      tx_date = tx_date;
      notification_date = notification_date;
      amount_min = t.amount_min;
      amount_max = t.amount_max;
      is_current = true;
      source_transaction_id = t.source_transaction_id;
    })

  -- The loop of `_save_transactions`.
  unfoldable pub add_rows : Text → List ParsedTransaction → Db → Option Db
  unfolding transaction_of add_transaction add_issue
  add_rows id [] db = some db
  add_rows id (t ∷ ts) db = elim t.tx_type [
    | none ↦ add_rows id ts (add_issue id t db)
    | some tx_type ↦ transaction_of id t tx_type >>= λ row. add_rows id ts (add_transaction row db)
  ]

  unfoldable pub save_transactions : Text → List ParsedTransaction → Db → Saved
  unfolding set_parsed
  save_transactions id ts db =
      if is_some (get_filing id db.filings)
      then commit (add_rows id ts (record db { filings = update_filing id set_parsed db.filings }))
      else committed db

  unfoldable pub save_parsed : Text → Db → Option (List ParsedTransaction) → Handled
  save_parsed id db none = raised
  save_parsed id db (some []) =
      went_on (mark_failed id (codes "no transactions parsed from an electronic PTR") db) false
  save_parsed id db (some (t ∷ ts)) = after_save db (save_transactions id (t ∷ ts) db)

  unfoldable pub handle_loaded : Text → Db → Loaded → Handled
  handle_loaded id db (load_error message) =
      went_on (mark_failed id (codes "download/extract failed: " ++ message) db) false
  handle_loaded id db (pages words) =
      if is_electronic words
      then save_parsed id db (parse_ptr_transactions words)
      else went_on (mark_paper_deferred id db) false

  module _ (download : Text → Loaded) where
    unfoldable pub parse_batch : List (Text × Text) → Db → PtrRun
    unfolding go_on handle_loaded
    parse_batch [] db = record { db = db; parsed_ids = []; crashed = false }
    parse_batch ((id, key) ∷ rest) db =
        go_on id (parse_batch rest) db (handle_loaded id db (download key))

    unfoldable pub parse_pending_house_ptrs : ℕ → Db → PtrRun
    unfolding parse_batch fetch_pending
    parse_pending_house_ptrs batch_size db = parse_batch (fetch_pending batch_size db) db
