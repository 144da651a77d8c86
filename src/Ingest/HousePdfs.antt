-- ===== src/Ingest/HousePdfs.antt =====
-- src/congress_collector/ingest/house_pdfs.py: the PDFs of House filings are fetched and archived. The
-- Clerk's site, the digest, the failures of an upload and the clock are arguments.
pub mod Batch
pub mod Settled
use evnt_trden_public.Base.{
  ℕ, ◌+◌, ◌-◌, Bool, true, false, ◌&&◌, ◌||◌, not, Option, none, some, is_some, value_or,
  map_option, List, [], ◌∷◌, ◌++◌, map, keep, any, length, take, count_if, leb, ltb, ◌==◌,
  if◌then◌else◌, Text, codes, text_eq, starts_with, one_of, drop,
}
use evnt_trden_public.Base.Decimal.{print_ℕ}
use evnt_trden_public.Base.Calendar.{Date}
use evnt_trden_public.Base.Sort.{sorted}
use evnt_trden_public.Db.{Filing, Db, DqIssue, Chamber, house, senate, update_filing}
use evnt_trden_public.Sources.House.{pdf_url_for}
use evnt_trden_public.Storage.Quota.{Archive, archive_object, current_usage_bytes}

abbrev pub fetch_failed_issue_type : Text
fetch_failed_issue_type = codes "house_pdf_fetch_failed"

abbrev pub raw_bucket : Text
raw_bucket = codes "congress-raw"

-- What the site answers: the bytes, an HTTP status that is an error, or no answer.
pub data Response : Type 0 where
  served : Text → Response
  status_error : ℕ → Text → Response
  broken : Text → Response

-- The folder year and the bytes, or the exception.
pub data Fetch : Type 0 where
  got : ℕ → Text → Fetch
  fetch_error : Text → Fetch

unfoldable pub candidate_years : ℕ → List ℕ
candidate_years filed_year = filed_year ∷ (filed_year - 1) ∷ (filed_year + 1) ∷ []

-- What one year's answer comes to: only a 404 goes on to the next year.
unfoldable pub answer : ℕ → (Text → Fetch) → Response → Fetch
answer year next (served content) = got year content
answer year next (status_error code message) =
    if code == 404 then next message else fetch_error message
answer year next (broken message) = fetch_error message

-- The loop of `_fetch_pdf`, with its last error.
unfoldable pub fetch_years : (Text → Response) → Text → Text → Text → List ℕ → Fetch
unfolding answer
fetch_years site doc_id filing_type last_error [] = fetch_error last_error
fetch_years site doc_id filing_type last_error (year ∷ years) =
    answer year (λ message. fetch_years site doc_id filing_type message years)
      (site (pdf_url_for doc_id filing_type year))

unfoldable pub fetch_pdf : (Text → Response) → Text → Text → ℕ → Fetch
unfolding candidate_years fetch_years
fetch_pdf site doc_id filing_type filed_year =
    fetch_years site doc_id filing_type [] (candidate_years filed_year)

is_house : Chamber → Bool
is_house house = true
is_house senate = false

-- A House filing without an archived PDF.
unfoldable pub waits : Filing → Bool
unfolding is_house
waits f = is_house f.chamber && not (is_some f.raw_object_key)

names : Text → Option Text → Bool
names filing_id none = false
names filing_id (some other) = text_eq other filing_id

unfoldable pub is_open_failure : Text → DqIssue → Bool
unfolding names
is_open_failure filing_id issue =
    names filing_id issue.filing_id
    && (text_eq issue.issue_type fetch_failed_issue_type && not (is_some issue.resolved_at))

unfoldable pub has_failed : List DqIssue → Text → Bool
has_failed issues filing_id = any (is_open_failure filing_id) issues

-- Periodic reports, then electronic annual reports, then the rest.
unfoldable pub type_priority : Filing → ℕ
type_priority f =
    if text_eq f.filing_type (codes "P")
    then 0
    else if text_eq f.filing_type (codes "O") && starts_with f.filing_id (codes "house:100")
    then 1
    else 2

failed_priority : List DqIssue → Filing → ℕ
failed_priority issues f = if has_failed issues f.filing_id then 1 else 0

-- `ORDER BY failed_priority, type_priority`
unfoldable pub priority_le : List DqIssue → Filing → Filing → Bool
unfolding failed_priority
priority_le issues f g =
    ltb (failed_priority issues f) (failed_priority issues g)
    || (leb (failed_priority issues f) (failed_priority issues g)
        && leb (type_priority f) (type_priority g))

unfoldable pub queue : Db → List Filing
queue db = sorted (priority_le db.dq_issues) (keep waits db.filings)

unfoldable pub fetch_pending : ℕ → Db → List Filing
unfolding queue
fetch_pending limit db = take limit (queue db)

unfoldable pub count_pending : Db → ℕ
count_pending db = count_if waits db.filings

-- A failure that is open already is not recorded again.
unfoldable pub record_fetch_failed : Text → Text → Db → Db
record_fetch_failed filing_id detail db =
    if has_failed db.dq_issues filing_id then db else record db {
      dq_issues =
          db.dq_issues
          ++ record {
            filing_id = some filing_id;
            transaction_id = none;
            issue_type = fetch_failed_issue_type;
            details = detail;
            resolved_at = none;
          }
            ∷ [];
    }

unfoldable pub resolve_failure : ℕ → Text → DqIssue → DqIssue
resolve_failure now filing_id issue =
    if is_open_failure filing_id issue then record issue { resolved_at = some now } else issue

unfoldable pub set_object : Text → Text → Filing → Filing
set_object key sha256 f = record f { raw_object_key = some key; raw_sha256 = some sha256 }

unfoldable pub record_archived : ℕ → Text → Text → Text → Db → Db
unfolding resolve_failure set_object
record_archived now filing_id key sha256 db = record db {
  filings = update_filing filing_id (set_object key sha256) db.filings;
  dq_issues = map (resolve_failure now filing_id) db.dq_issues;
}

-- `filing_id.removeprefix("house:")`
doc_id_of : Text → Text
doc_id_of filing_id = if starts_with filing_id (codes "house:") then drop 6 filing_id else filing_id

unfoldable pub object_key : ℕ → Text → Text
object_key year doc_id = codes "house/" ++ (print_ℕ year ++ (b'/' ∷ (doc_id ++ codes ".pdf")))

pub budget_message : ℕ → ℕ → Archive → Text
budget_message ceiling size a =
    raw_bucket
    ++ (codes ": "
        ++ (print_ℕ (current_usage_bytes raw_bucket a.usage + size)
            ++ (codes " bytes would exceed the " ++ (print_ℕ ceiling ++ codes "-byte budget"))))

-- What the `try` of one filing comes to.
pub data Attempt : Type 0 where
  archived_as : Text → Text → Archive → Attempt
  gave_up : Text → Attempt

-- The budget's answer, then the upload's.
unfoldable pub upload_outcome : Text → Text → Text → Option Archive → Option Text → Attempt
upload_outcome key content refusal none failure = gave_up refusal
upload_outcome key content refusal (some b) (some message) = gave_up message
upload_outcome key content refusal (some b) none = archived_as key content b

pub record Archiving : Type 0 where
  pub archive : Archive
  pub db : Db
  pub archived : ℕ

module _ (site : Text → Response) (sha256_hex : Text → Text) (upload_error : Text → Option Text)
    (ceiling now this_year : ℕ) where
  filed_year : Filing → ℕ
  filed_year f = elim f.filed_date [ none ↦ this_year | some d ↦ d.year ]

  -- The budget is asked first, then the upload made, then its size recorded. An upload that raises has
  -- stored nothing.
  unfoldable pub store_pdf : Text → Text → Archive → Attempt
  unfolding budget_message upload_outcome
  store_pdf key content a =
      upload_outcome key content (budget_message ceiling (length content) a)
        (archive_object ceiling raw_bucket key (length content) a) (upload_error key)

  unfoldable pub store_fetched : Text → Archive → Fetch → Attempt
  unfolding store_pdf object_key
  store_fetched doc_id a (fetch_error message) = gave_up message
  store_fetched doc_id a (got year content) = store_pdf (object_key year doc_id) content a

  unfoldable pub attempt : Filing → Archive → Attempt
  unfolding store_fetched filed_year doc_id_of
  attempt f a =
      let doc_id = doc_id_of f.filing_id in
      store_fetched doc_id a (fetch_pdf site doc_id f.filing_type (filed_year f))

  failure_detail : Filing → Text → Text
  failure_detail f message =
      pdf_url_for (doc_id_of f.filing_id) f.filing_type (filed_year f) ++ (codes " -> " ++ message)

  unfoldable pub finish_attempt : Filing → Archiving → Attempt → Archiving
  unfolding failure_detail record_archived record_fetch_failed filed_year doc_id_of
  finish_attempt f s (gave_up message) = record s {
    db = record_fetch_failed f.filing_id (failure_detail f message) s.db;
  }
  finish_attempt f s (archived_as key content b) = record {
    archive = b;
    db = record_archived now f.filing_id key (sha256_hex content) s.db;
    archived = s.archived + 1;
  }

  unfoldable pub archive_batch : List Filing → Archiving → Archiving
  unfolding attempt finish_attempt
  archive_batch [] s = s
  archive_batch (f ∷ fs) s = archive_batch fs (finish_attempt f s (attempt f s.archive))

  unfoldable pub archive_pending_house_pdfs : ℕ → Archive → Db → Archiving
  unfolding archive_batch fetch_pending
  archive_pending_house_pdfs batch_size a db =
      archive_batch (fetch_pending batch_size db) (record { archive = a; db = db; archived = 0 })
