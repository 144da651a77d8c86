-- ===== src/Ingest/HousePdfs/Settled.antt =====
-- What a batch leaves: the archive within its budget, and each filing either archived or flagged.
use evnt_trden_public.Base.{
  ℕ, ◌≡◌, refl, Bool, true, ◌&&◌, ◌||◌, not, Option, none, some, is_some, List, [], ◌∷◌, ◌++◌, map,
  any, Text, text_eq, text_eq_iff, text_eq_refl, arith, Bool-cases, Option-cases, inl, inr, length,
}
use evnt_trden_public.Db.{Filing, Db, DqIssue, get_filing}
use evnt_trden_public.Db.Rows.{get_filing-update_filing}
use evnt_trden_public.Storage.Quota.{Archive}
use evnt_trden_public.Storage.Quota.Budget.{WithinBudget, archive_object-WithinBudget}
use evnt_trden_public.Ingest.HousePdfs.{
  Response, Attempt, archived_as, gave_up, Archiving, is_open_failure, has_failed,
  record_fetch_failed, record_archived, resolve_failure, set_object, store_fetched, upload_outcome,
  attempt, finish_attempt, archive_batch, archive_pending_house_pdfs, fetch_pending, raw_bucket,
  Fetch, got, fetch_error, fetch_failed_issue_type,
}

abbrev has_object : Option Filing → Bool
has_object none = true
has_object (some f) = is_some f.raw_object_key

-- A filing that has its PDF (or is gone), or that is flagged.
unfoldable pub settled : Text → Db → Bool
settled id db = has_object (get_filing id db.filings) || has_failed db.dq_issues id

is_open_failure-resolve :
    (now : ℕ) (id other : Text) (issue : DqIssue)
    → is_open_failure other (resolve_failure now id issue)
      ≡ (is_open_failure other issue && not (text_eq id other))
unfolding is_open_failure resolve_failure
is_open_failure-resolve now id other issue = elim (Option-cases issue.filing_id) [
  | inl e ↦ ground (arith, e)
  | inr (i, e) ↦ ground (arith, e, text_eq_iff i id, text_eq_iff i other, text_eq_iff id other)
]

-- Resolving closes the failures of one filing and no other.
has_failed-resolve :
    (now : ℕ) (id other : Text) (issues : List DqIssue)
    → has_failed (map (resolve_failure now id) issues) other
      ≡ (has_failed issues other && not (text_eq id other))
unfolding has_failed
has_failed-resolve now id other [] = refl
has_failed-resolve now id other (issue ∷ issues) =
    ground
      (arith, is_open_failure-resolve now id other issue, has_failed-resolve now id other issues)

has_failed-append :
    (issues more : List DqIssue) (id : Text)
    → has_failed (issues ++ more) id ≡ (has_failed issues id || has_failed more id)
unfolding has_failed
has_failed-append [] more id = refl
has_failed-append (issue ∷ issues) more id = ground (arith, has_failed-append issues more id)

-- A failure that is recorded is open, and those that were open stay so.
has_failed-record :
    (id other detail : Text) (db : Db)
    → has_failed (record_fetch_failed id detail db).dq_issues other
      ≡ (has_failed db.dq_issues other || text_eq id other)
unfolding record_fetch_failed
has_failed-record id other detail db = elim (Bool-cases (has_failed db.dq_issues id)) [
  | inl e ↦ ground (arith, e, text_eq_iff id other)
  | inr e ↦
      rw (e, has_failed-append)
        (unfold has_failed is_open_failure in ground (arith, text_eq_refl fetch_failed_issue_type))
]

filings-record :
    (id detail : Text) (db : Db) → (record_fetch_failed id detail db).filings ≡ db.filings
unfolding record_fetch_failed
filings-record id detail db = ground arith

settled-record :
    (id other detail : Text) (db : Db)
    → settled other (record_fetch_failed id detail db) ≡ (settled other db || text_eq id other)
unfolding settled
settled-record id other detail db = rw (filings-record, has_failed-record) (ground arith)

settled-archived :
    (now : ℕ) (id other key sha256 : Text) (db : Db)
    → settled other (record_archived now id key sha256 db) ≡ (settled other db || text_eq id other)
unfolding settled record_archived
settled-archived now id other key sha256 db = ground (
  arith,
  get_filing-update_filing id other (set_object key sha256) db.filings
      (λ f. unfold set_object in refl),
  has_failed-resolve now id other db.dq_issues,
)

-- An attempt that archived a PDF left the archive within the ceiling.
abbrev Allowed : ℕ → Attempt → Type 0
Allowed ceiling (gave_up message) = Unit
Allowed ceiling (archived_as key content b) = WithinBudget ceiling raw_bucket b

upload_outcome-Allowed :
    (ceiling : ℕ) (key content refusal : Text) (o : Option Archive) (failure : Option Text)
    → ((b : Archive) → o ≡ some b → WithinBudget ceiling raw_bucket b)
    → Allowed ceiling (upload_outcome key content refusal o failure)
unfolding upload_outcome
upload_outcome-Allowed ceiling key content refusal none failure w = tt
upload_outcome-Allowed ceiling key content refusal (some b) (some message) w = tt
upload_outcome-Allowed ceiling key content refusal (some b) none w = w b refl

module _ (site : Text → Response) (sha256_hex : Text → Text) (upload_error : Text → Option Text)
    (ceiling now this_year : ℕ) where
  store_fetched-Allowed :
      (doc_id : Text) (a : Archive) (t : Fetch)
      → WithinBudget ceiling raw_bucket a
      → Allowed ceiling
          (store_fetched site sha256_hex upload_error ceiling now this_year doc_id a t)
  unfolding store_fetched
  store_fetched-Allowed doc_id a (fetch_error message) w = tt
  store_fetched-Allowed doc_id a (got year content) w =
      upload_outcome-Allowed ceiling _ content _ _ (upload_error _)
        (λ b h. archive_object-WithinBudget ceiling raw_bucket _ (length content) a b h w)

  attempt-Allowed :
      (f : Filing) (a : Archive)
      → WithinBudget ceiling raw_bucket a
      → Allowed ceiling (attempt site sha256_hex upload_error ceiling now this_year f a)
  unfolding attempt
  attempt-Allowed f a w = store_fetched-Allowed _ a _ w

  finish_attempt-WithinBudget :
      (f : Filing) (s : Archiving) (t : Attempt)
      → Allowed ceiling t
      → WithinBudget ceiling raw_bucket s.archive
      → WithinBudget ceiling raw_bucket
          (finish_attempt site sha256_hex upload_error ceiling now this_year f s t).archive
  unfolding finish_attempt
  finish_attempt-WithinBudget f s (gave_up message) h w = w
  finish_attempt-WithinBudget f s (archived_as key content b) h w = h

  archive_batch-WithinBudget :
      (fs : List Filing) (s : Archiving)
      → WithinBudget ceiling raw_bucket s.archive
      → WithinBudget ceiling raw_bucket
          (archive_batch site sha256_hex upload_error ceiling now this_year fs s).archive
  unfolding archive_batch
  archive_batch-WithinBudget [] s w = w
  archive_batch-WithinBudget (f ∷ fs) s w =
      let t = attempt site sha256_hex upload_error ceiling now this_year f s.archive in
      archive_batch-WithinBudget fs
        (finish_attempt site sha256_hex upload_error ceiling now this_year f s t)
        (finish_attempt-WithinBudget f s t (attempt-Allowed f s.archive w) w)

  -- A run of the archiving step, whatever the site serves and whichever uploads fail, keeps the archive
  -- within its ceiling: if what the bucket holds is at most its running total, and that at most the
  -- ceiling, both are so after the run.
  pub archive_pending_house_pdfs-WithinBudget :
      (batch_size : ℕ) (a : Archive) (db : Db)
      → WithinBudget ceiling raw_bucket a
      → WithinBudget ceiling raw_bucket
          (archive_pending_house_pdfs site sha256_hex upload_error ceiling now this_year batch_size
            a db).archive
  unfolding archive_pending_house_pdfs
  archive_pending_house_pdfs-WithinBudget batch_size a db w =
      archive_batch-WithinBudget (fetch_pending batch_size db) _ w

  finish_attempt-settled :
      (f : Filing) (s : Archiving) (t : Attempt) (other : Text)
      → settled other (finish_attempt site sha256_hex upload_error ceiling now this_year f s t).db
        ≡ (settled other s.db || text_eq f.filing_id other)
  unfolding finish_attempt
  finish_attempt-settled f s (gave_up message) other = settled-record f.filing_id other _ s.db
  finish_attempt-settled f s (archived_as key content b) other =
      settled-archived now f.filing_id other key (sha256_hex content) s.db

  archive_batch-settled :
      (fs : List Filing) (s : Archiving) (other : Text)
      → settled other (archive_batch site sha256_hex upload_error ceiling now this_year fs s).db
        ≡ (settled other s.db || any (λ f. text_eq f.filing_id other) fs)
  unfolding archive_batch
  archive_batch-settled [] s other = ground arith
  archive_batch-settled (f ∷ fs) s other = ground (
    arith,
    archive_batch-settled fs
        (finish_attempt site sha256_hex upload_error ceiling now this_year f s
          (attempt site sha256_hex upload_error ceiling now this_year f s.archive))
        other,
    finish_attempt-settled f s
        (attempt site sha256_hex upload_error ceiling now this_year f s.archive) other,
  )

  -- After a run the filings that have their PDF or carry an open failure are those that had before, and
  -- those of the batch: none of the batch is left without either.
  pub archive_pending_house_pdfs-settled :
      (batch_size : ℕ) (a : Archive) (db : Db) (id : Text)
      → settled id
          (archive_pending_house_pdfs site sha256_hex upload_error ceiling now this_year batch_size
            a db).db
        ≡ (settled id db || any (λ f. text_eq f.filing_id id) (fetch_pending batch_size db))
  unfolding archive_pending_house_pdfs
  archive_pending_house_pdfs-settled batch_size a db id =
      archive_batch-settled (fetch_pending batch_size db) _ id
