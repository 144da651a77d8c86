-- ===== src/Db.antt =====
-- src/congress_collector/db/models.py: the tables as lists of rows, and what the sessions do with
-- them. The columns that a CHECK constraint restricts (alembic/versions) are enumerations; moments are
-- seconds; columns that no modelled code reads or writes are left out.
pub mod Rows
use evnt_trden_public.Base.{
  ℕ, Bool, Option, none, some, List, [], ◌∷◌, if◌then◌else◌, Text, text_eq, first_that, map,
}
use evnt_trden_public.Base.Float.{Float}
use evnt_trden_public.Base.Calendar.{Date}

pub data Chamber : Type 0 where
  house senate : Chamber

pub data Format : Type 0 where
  electronic paper scanned unknown : Format

pub data ParseStatus : Type 0 where
  pending parsed paper_deferred failed : ParseStatus

pub data RunStatus : Type 0 where
  run_success run_failed : RunStatus

pub record Filing : Type 0 where
  pub filing_id : Text
  pub chamber : Chamber
  pub filer_name : Text
  pub bioguide_id : Option Text
  pub filing_type : Text
  pub filed_date : Option Date
  pub first_seen_at : ℕ
  pub first_seen_precision_s : ℕ
  pub format : Format
  pub parse_status : ParseStatus
  pub raw_object_key : Option Text
  pub raw_sha256 : Option Text
  pub supersedes_filing_id : Option Text

pub record Transaction : Type 0 where
  pub transaction_id : ℕ
  pub filing_id : Text
  pub row_index : ℕ
  pub owner : Option Text
  pub asset_description_raw : Text
  pub asset_type : Option Text
  pub ticker : Option Text
  pub instrument_id : Option ℕ
  pub option_type : Option Text
  pub strike : Option Float
  pub expiry : Option Date
  pub tx_type : Text
  pub tx_date : Option Date
  pub notification_date : Option Date
  pub amount_min : Option Float
  pub amount_max : Option Float
  pub is_current : Bool
  pub source_transaction_id : Option Text

pub record DqIssue : Type 0 where
  pub filing_id : Option Text
  pub transaction_id : Option ℕ
  pub issue_type : Text
  pub details : Text
  pub resolved_at : Option ℕ

pub record ScrapeRun : Type 0 where
  pub chamber : Chamber
  pub started_at : ℕ
  pub finished_at : ℕ
  pub status : RunStatus
  pub new_filings_count : ℕ
  pub error_message : Option Text

pub record Db : Type 0 where
  pub filings : List Filing
  pub transactions : List Transaction
  pub dq_issues : List DqIssue
  pub scrape_runs : List ScrapeRun

-- `session.get(Filing, filing_id)`
unfoldable pub get_filing : Text → List Filing → Option Filing
get_filing id [] = none
get_filing id (f ∷ fs) = if text_eq f.filing_id id then some f else get_filing id fs

-- Assignments to the attributes of the row with that primary key.
unfoldable pub update_filing : Text → (Filing → Filing) → List Filing → List Filing
update_filing id change [] = []
update_filing id change (f ∷ fs) =
    (if text_eq f.filing_id id then change f else f) ∷ update_filing id change fs
