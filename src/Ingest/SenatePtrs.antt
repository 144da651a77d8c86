-- ===== src/Ingest/SenatePtrs.antt =====
-- src/congress_collector/ingest/senate_ptrs.py: electronic Senate reports are fetched, archived and
-- parsed. The site, the HTML parser, the digest, the failures of an upload and the keys of new rows are
-- arguments.
pub mod Finished
use evnt_trden_public.Base.{
  ℕ, ◌+◌, Bool, true, false, ◌&&◌, Option, none, some, is_some, List, [], ◌∷◌, ◌++◌, map, keep,
  take, ◌==◌, ltb, if◌then◌else◌, Text, codes, text_eq, starts_with, drop,
}
use evnt_trden_public.Base.Decimal.{print_ℕ}
use evnt_trden_public.Db.{
  Filing, Transaction, Db, DqIssue, Format, electronic, paper, scanned, unknown, ParseStatus,
  pending, parsed, failed, paper_deferred, Chamber, house, senate, get_filing, update_filing,
}
use evnt_trden_public.Sources.Senate.{ptr_url_for}
use evnt_trden_public.Parsers.SenatePtr.{ParsedTransaction, parse_ptr_html}
use evnt_trden_public.Storage.Quota.{Archive, archive_object}
use evnt_trden_public.Ingest.HousePdfs.{
  Attempt, archived_as, gave_up, upload_outcome, budget_message, raw_bucket,
}
use evnt_trden_public.Ingest.HousePtrs.{Saved, committed, conflict, aborted, commit}

is_senate : Chamber → Bool
is_senate senate = true
is_senate house = false

is_electronic_format : Format → Bool
is_electronic_format electronic = true
is_electronic_format paper = false
is_electronic_format scanned = false
is_electronic_format unknown = false

unfoldable pub is_pending : ParseStatus → Bool
is_pending pending = true
is_pending parsed = false
is_pending failed = false
is_pending paper_deferred = false

unfoldable pub waits : Filing → Bool
unfolding is_senate is_electronic_format is_pending
waits f =
    is_senate f.chamber
    && (text_eq f.filing_type (codes "P")
        && (is_electronic_format f.format && is_pending f.parse_status))

-- `filing_id.removeprefix("senate:")`
uuid_of : Text → Text
uuid_of id = if starts_with id (codes "senate:") then drop 7 id else id

id_and_uuid : Filing → Text × Text
unfolding uuid_of
id_and_uuid f = (f.filing_id, uuid_of f.filing_id)

unfoldable pub fetch_pending : ℕ → Db → List (Text × Text)
unfolding id_and_uuid
fetch_pending limit db = map id_and_uuid (take limit (keep waits db.filings))

set_failed : Filing → Filing
set_failed f = record f { parse_status = failed }

issue : Text → Text → Text → DqIssue
issue id type detail = record {
  filing_id = some id;
  transaction_id = none;
  issue_type = type;
  details = detail;
  resolved_at = none;
}

unfoldable pub mark_failed : Text → Text → Db → Db
unfolding set_failed issue
mark_failed id detail db = record db {
  filings = update_filing id set_failed db.filings;
  dq_issues = db.dq_issues ++ issue id (codes "ptr_parse_failed") detail ∷ [];
}

set_parsed : Text → Text → Filing → Filing
set_parsed key sha256 f = record f {
  parse_status = parsed;
  raw_object_key = some key;
  raw_sha256 = some sha256;
}

-- The length of `html.encode("utf-8")`.
encoded_length : Text → ℕ
encoded_length [] = 0
encoded_length (c ∷ t) =
    let rest = encoded_length t in
    (if ltb c 128 then 1 else if ltb c 2048 then 2 else if ltb c 65536 then 3 else 4) + rest

object_key : Text → Text
object_key uuid = codes "senate/" ++ (uuid ++ codes ".html")

-- An HTTP status and the page.
pub record Response : Type 0 where
  pub status_code : ℕ
  pub text : Text

pub record State : Type 0 where
  pub archive : Archive
  pub db : Db

-- What one filing comes to: whether it counts as parsed, or an exception, and the state it leaves.
pub data Handled : Type 0 where
  went_on : State → Bool → Handled
  raised : State → Handled

pub record PtrRun : Type 0 where
  pub state : State
  pub parsed_ids : List Text
  pub crashed : Bool

unfoldable pub after_save : State → Saved → Handled
after_save s (committed db) = went_on (record s { db = db }) true
after_save s conflict = raised s
after_save s aborted = raised s

unfoldable pub go_on : Text → (State → PtrRun) → Handled → PtrRun
go_on id rest (raised s) = record { state = s; parsed_ids = []; crashed = true }
go_on id rest (went_on s counts) =
    let run = rest s in if counts then record run { parsed_ids = id ∷ run.parsed_ids } else run

module _ (transaction_id_for : Text → ℕ → ℕ) where
  row_of : Text → ParsedTransaction → Text → Transaction
  row_of id t tx_type = record {
    transaction_id = transaction_id_for id t.row_index;
    filing_id = id;
    row_index = t.row_index;
    owner = t.owner;
    asset_description_raw = t.asset_description_raw;
    asset_type = t.asset_type;
    ticker = t.ticker;
    instrument_id = none;
    option_type = t.option_type;
    strike = t.strike;
    expiry = t.expiry;
    tx_type = tx_type;
    tx_date = t.tx_date;
    notification_date = none;
    amount_min = t.amount_min;
    amount_max = t.amount_max;
    is_current = true;
    source_transaction_id = none;
  }

  add_row : Text → ParsedTransaction → Option Text → Db → Db
  unfolding row_of issue
  add_row id t none db = record db {
    dq_issues =
        db.dq_issues
        ++ issue id (codes "unknown_tx_type") (
            codes "row "
            ++ (print_ℕ t.row_index ++ codes ": could not map to a known transaction type"))
          ∷ [];
  }
  add_row id t (some tx_type) db = record db {
    transactions = db.transactions ++ row_of id t tx_type ∷ [];
  }

  -- The loop of `_save_transactions`.
  unfoldable pub add_rows : Text → List ParsedTransaction → Db → Db
  unfolding add_row
  add_rows id [] db = db
  add_rows id (t ∷ ts) db = add_rows id ts (add_row id t t.tx_type db)

  unfoldable pub save_transactions : Text → Text → Text → List ParsedTransaction → Db → Saved
  unfolding set_parsed
  save_transactions id key sha256 ts db =
      if is_some (get_filing id db.filings)
      then commit (
          some (
            add_rows id ts
              (record db { filings = update_filing id (set_parsed key sha256) db.filings })))
      else committed db

  module _ (site : Text → Response) (table_rows : Text → Option (List (List Text)))
      (sha256_hex : Text → Text) (upload_error : Text → Option Text) (ceiling : ℕ) where
    -- The budget is asked first, then the upload made, then its size recorded.
    store_page : Text → Text → Archive → Attempt
    unfolding encoded_length
    store_page key html a =
        upload_outcome key html (budget_message ceiling (encoded_length html) a)
          (archive_object ceiling raw_bucket key (encoded_length html) a) (upload_error key)

    save_stored : Text → List ParsedTransaction → State → Attempt → Handled
    save_stored id ts s (gave_up message) =
        went_on (record s { db = mark_failed id (codes "upload failed: " ++ message) s.db }) false
    save_stored id ts s (archived_as key html b) =
        after_save (record s { archive = b }) (save_transactions id key (sha256_hex html) ts s.db)

    handle_parsed : Text → Text → Text → State → Option (List ParsedTransaction) → Handled
    unfolding save_stored store_page object_key
    handle_parsed id uuid html s none = raised s
    handle_parsed id uuid html s (some []) =
        went_on
          (record s {
            db = mark_failed id (codes "no transactions parsed from an electronic PTR") s.db;
          })
          false
    handle_parsed id uuid html s (some (t ∷ ts)) =
        save_stored id (t ∷ ts) s (store_page (object_key uuid) html s.archive)

    unfoldable pub handle_response : Text → Text → State → Response → Handled
    unfolding handle_parsed ptr_url_for
    handle_response id uuid s response =
        if response.status_code == 200
        then handle_parsed id uuid response.text s (parse_ptr_html table_rows response.text)
        else went_on
            (record s {
              db =
                  mark_failed id
                    (codes "GET "
                      ++ (ptr_url_for uuid ++ (codes " -> " ++ print_ℕ response.status_code)))
                    s.db;
            })
            false

    unfoldable pub parse_batch : List (Text × Text) → State → PtrRun
    unfolding go_on handle_response ptr_url_for
    parse_batch [] s = record { state = s; parsed_ids = []; crashed = false }
    parse_batch ((id, uuid) ∷ rest) s =
        go_on id (parse_batch rest) (handle_response id uuid s (site (ptr_url_for uuid)))

    unfoldable pub parse_pending_senate_ptrs : ℕ → State → PtrRun
    unfolding parse_batch fetch_pending
    parse_pending_senate_ptrs batch_size s = parse_batch (fetch_pending batch_size s.db) s
