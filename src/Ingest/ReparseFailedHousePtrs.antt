-- ===== src/Ingest/ReparseFailedHousePtrs.antt =====
-- src/congress_collector/ingest/reparse_failed_house_ptrs.py: House reports that failed or were deferred
-- are parsed again. The archive, the text extraction and the clock are arguments.
pub mod Settled
pub mod Untouched
use evnt_trden_public.Base.{
  ℕ, ◌+◌, Bool, true, false, ◌&&◌, ◌||◌, not, Option, none, some, ◌>>=◌, is_some, value_or, List,
  [], ◌∷◌, map, keep, if◌then◌else◌, Text, codes, text_eq, is_empty,
}
use evnt_trden_public.Db.{
  Filing, Db, DqIssue, Chamber, house, senate, ParseStatus, pending, parsed, paper_deferred, failed,
  get_filing, update_filing,
}
use evnt_trden_public.Parsers.HousePtr.{Word, ParsedTransaction}
use evnt_trden_public.Parsers.HousePtr.Columns.{is_electronic}
use evnt_trden_public.Parsers.HousePtr.Parse.{parse_ptr_transactions}
use evnt_trden_public.Ingest.HousePtrs.{
  Loaded, pages, load_error, Saved, committed, conflict, aborted, set_parsed, add_rows, commit,
}

abbrev pub issue_type : Text
issue_type = codes "ptr_parse_failed"

is_house : Chamber → Bool
is_house house = true
is_house senate = false

unfoldable pub is_deferred : ParseStatus → Bool
is_deferred paper_deferred = true
is_deferred pending = false
is_deferred parsed = false
is_deferred failed = false

is_failed : ParseStatus → Bool
is_failed failed = true
is_failed pending = false
is_failed parsed = false
is_failed paper_deferred = false

-- A row of `_failed_filings`
pub record FailedFiling : Type 0 where
  pub filing_id : Text
  pub object_key : Text
  pub status : ParseStatus

unfoldable pub is_selected : Filing → Bool
unfolding is_house is_failed is_deferred
is_selected f =
    is_house f.chamber
    && (text_eq f.filing_type (codes "P")
        && ((is_failed f.parse_status || is_deferred f.parse_status) && is_some f.raw_object_key))

row_of : Filing → FailedFiling
row_of f = record {
  filing_id = f.filing_id;
  object_key = value_or [] f.raw_object_key;
  status = f.parse_status;
}

unfoldable pub failed_filings : Db → List FailedFiling
unfolding is_selected row_of
failed_filings db =
    keep (λ r. not (is_empty r.object_key)) (map row_of (keep is_selected db.filings))

abbrev is_of : Text → Option Text → Bool
is_of id none = false
is_of id (some other) = text_eq other id

-- An issue of the filing that says that it failed, and is not resolved.
unfoldable pub is_open_failure : Text → DqIssue → Bool
is_open_failure id i =
    is_of id i.filing_id && (text_eq i.issue_type issue_type && not (is_some i.resolved_at))

unfoldable pub resolve_issue : Text → ℕ → DqIssue → DqIssue
unfolding is_open_failure
resolve_issue id now i = record i {
  resolved_at = if is_open_failure id i then some now else i.resolved_at;
}

unfoldable pub resolve_issues : Text → ℕ → Db → Db
unfolding resolve_issue
resolve_issues id now db = record db { dq_issues = map (resolve_issue id now) db.dq_issues }

-- What one filing comes to: saved, still failing, already saved by another process, or an exception.
pub data Reparsed : Type 0 where
  saved : Db → Reparsed
  still_fails : Reparsed
  already_saved : Reparsed
  raised : Reparsed

unfoldable pub of_saved : Saved → Reparsed
of_saved (committed db) = saved db
of_saved conflict = already_saved
of_saved aborted = raised

pub record ReparseRun : Type 0 where
  pub db : Db
  pub now_parsed : ℕ
  pub still_failed : ℕ
  pub crashed : Bool

-- The loop goes on with what one filing came to.
unfoldable pub go_on : (Db → ReparseRun) → Db → Reparsed → ReparseRun
go_on rest db (saved next) = let run = rest next in record run { now_parsed = run.now_parsed + 1 }
go_on rest db still_fails = let run = rest db in record run { still_failed = run.still_failed + 1 }
go_on rest db already_saved = rest db
go_on rest db raised = record { db = db; now_parsed = 0; still_failed = 0; crashed = true }

module _ (transaction_id_for : Text → ℕ → ℕ) (now : ℕ) where
  unfoldable pub save_rows : Text → List ParsedTransaction → Db → Option Db
  unfolding resolve_issues
  save_rows id ts db = do
    added ←
        add_rows transaction_id_for id ts
          (record db { filings = update_filing id set_parsed db.filings })
    some (resolve_issues id now added)

  -- `_save_and_resolve`
  unfoldable pub save_and_resolve : Text → List ParsedTransaction → Db → Saved
  unfolding save_rows
  save_and_resolve id ts db =
      if is_some (get_filing id db.filings) then commit (save_rows id ts db) else committed db

  unfoldable pub reparse_rows : Text → Option (List ParsedTransaction) → Db → Reparsed
  reparse_rows id none db = raised
  reparse_rows id (some []) db = still_fails
  reparse_rows id (some (t ∷ ts)) db = of_saved (save_and_resolve id (t ∷ ts) db)

  unfoldable pub reparse : FailedFiling → Loaded → Db → Reparsed
  unfolding reparse_rows
  reparse r (load_error message) db = still_fails
  reparse r (pages words) db =
      if is_deferred r.status && not (is_electronic words)
      then still_fails
      else reparse_rows r.filing_id (parse_ptr_transactions words) db

  module _ (download : Text → Loaded) where
    unfoldable pub reparse_all : List FailedFiling → Db → ReparseRun
    unfolding go_on reparse
    reparse_all [] db = record { db = db; now_parsed = 0; still_failed = 0; crashed = false }
    reparse_all (r ∷ rest) db = go_on (reparse_all rest) db (reparse r (download r.object_key) db)

    unfoldable pub reparse_failed_filings : Db → ReparseRun
    unfolding reparse_all failed_filings
    reparse_failed_filings db = reparse_all (failed_filings db) db
