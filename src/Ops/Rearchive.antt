-- ===== src/Ops/Rearchive.antt =====
-- src/congress_collector/ops/rearchive_from_source_to_r2.py: archived reports that the bucket lacks are
-- fetched from their sites again. The sites, the digest and the failures of an upload are arguments.
pub mod Keys
pub mod Complete
use evnt_trden_public.Base.{
  ℕ, ◌+◌, Bool, true, false, ◌&&◌, ◌||◌, Option, none, some, ◌>>=◌, is_some, value_or, map_option,
  List, [], ◌∷◌, ◌++◌, map, keep, length, drop, if◌then◌else◌, Text, codes, text_eq, starts_with,
  split_once, is_empty, not,
}
use evnt_trden_public.Base.Decimal.{int_of}
use evnt_trden_public.Db.{Filing, Db, Chamber, house, senate, update_filing}
use evnt_trden_public.Sources.House.{pdf_url_for}
use evnt_trden_public.Sources.Senate.{ptr_url_for}
use evnt_trden_public.Storage.Bucket.{Bucket}
use evnt_trden_public.Storage.Quota.{Archive, archive_object}
use evnt_trden_public.Ingest.HousePdfs.{
  Response, served, status_error, broken, Attempt, archived_as, gave_up, upload_outcome, raw_bucket,
}

-- `existing_sha256(…) is not None`, for a bucket that answers and whose objects were all written with
-- their digest.
unfoldable pub has_object : Text → Bucket → Bool
has_object key [] = false
has_object key (o ∷ bucket) = text_eq o.key key || has_object key bucket

-- `object_key.split("/")[1]`, or the `IndexError`.
unfoldable pub second_part : Text → Option Text
second_part key = do
  first ← split_once b'/' key
  some (value_or first.1 (map_option (λ (p : Text × Text). p.0) (split_once b'/' first.1)))

unfoldable pub year_from_object_key : Text → Option ℕ
unfolding second_part
year_from_object_key key = second_part key >>= int_of

-- What is fetched for an object, and the filing that it belongs to.
pub record Entry : Type 0 where
  pub object_key : Text
  pub filing_id : Text
  pub url : Text

unfoldable pub remove_prefix : Text → Text → Text
remove_prefix prefix t = if starts_with t prefix then drop (length prefix) t else t

is_house : Chamber → Bool
is_house house = true
is_house senate = false

archived : Bool → Filing → Bool
unfolding is_house
archived of_house f =
    (if of_house then is_house f.chamber else not (is_house f.chamber))
    && not (is_empty (value_or [] f.raw_object_key))

house_entry : Filing → Option Entry
unfolding remove_prefix
house_entry f = do
  year ← year_from_object_key (value_or [] f.raw_object_key)
  let doc_id = remove_prefix (codes "house:") f.filing_id in
      some (record {
        object_key = value_or [] f.raw_object_key;
        filing_id = codes "house:" ++ doc_id;
        url = pdf_url_for doc_id f.filing_type year;
      })

house_entries_of : List Filing → Option (List Entry)
unfolding house_entry
house_entries_of [] = some []
house_entries_of (f ∷ fs) = do e ← house_entry f; es ← house_entries_of fs; some (e ∷ es)

unfoldable pub house_entries : Db → Option (List Entry)
unfolding house_entries_of archived
house_entries db = house_entries_of (keep (archived true) db.filings)

senate_entry : Filing → Entry
unfolding remove_prefix
senate_entry f =
    let report_uuid = remove_prefix (codes "senate:") f.filing_id in
    record {
      object_key = value_or [] f.raw_object_key;
      filing_id = codes "senate:" ++ report_uuid;
      url = ptr_url_for report_uuid;
    }

unfoldable pub senate_entries : Db → List Entry
unfolding senate_entry archived
senate_entries db = map senate_entry (keep (archived false) db.filings)

set_sha256 : Text → Filing → Filing
set_sha256 sha256 f = record f { raw_sha256 = some sha256 }

unfoldable pub update_sha256 : Text → Text → Db → Db
unfolding set_sha256
update_sha256 filing_id sha256 db = record db {
  filings = update_filing filing_id (set_sha256 sha256) db.filings;
}

pub record Rearchived : Type 0 where
  pub archive : Archive
  pub db : Db
  pub copied : ℕ
  pub already_present : ℕ
  pub failed : List Text

module _ (site : Text → Response) (sha256_hex : Text → Text) (upload_error : Text → Option Text)
    (ceiling : ℕ) where
  -- The budget is asked first, then the upload made, then its size recorded.
  unfoldable pub store : Text → Archive → Response → Attempt
  store key a (served content) =
      upload_outcome key content [] (archive_object ceiling raw_bucket key (length content) a)
        (upload_error key)
  store key a (status_error code message) = gave_up message
  store key a (broken message) = gave_up message

  unfoldable pub finish : Entry → Attempt → Rearchived → Rearchived
  unfolding update_sha256
  finish e (gave_up message) s = record s { failed = s.failed ++ e.object_key ∷ [] }
  finish e (archived_as key content b) s = record s {
    archive = b;
    db = update_sha256 e.filing_id (sha256_hex content) s.db;
    copied = s.copied + 1;
  }

  unfoldable pub rearchive_one : Entry → Rearchived → Rearchived
  unfolding store finish
  rearchive_one e s =
      if has_object e.object_key s.archive.objects
      then record s { already_present = s.already_present + 1 }
      else finish e (store e.object_key s.archive (site e.url)) s

  -- The loop of `rearchive_house`, and of `rearchive_senate`, whose code is the same.
  unfoldable pub rearchive : List Entry → Rearchived → Rearchived
  unfolding rearchive_one
  rearchive [] s = s
  rearchive (e ∷ es) s = rearchive es (rearchive_one e s)
