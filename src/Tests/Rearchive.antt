-- ===== src/Tests/Rearchive.antt =====
-- Two archived reports, of which the bucket has one and the site another.
use evnt_trden_public.Base.{
  ◌≡◌, refl, true, none, some, List, [], ◌∷◌, if◌then◌else◌, Text, codes, text_eq, All,
}
use evnt_trden_public.Storage.Quota.Budget.{WithinBudget}
use evnt_trden_public.Ingest.HousePdfs.{Response, served, status_error, raw_bucket, object_key}
use evnt_trden_public.Ops.Rearchive.{Entry, Rearchived, rearchive, year_from_object_key}
use evnt_trden_public.Ops.Rearchive.Keys.{year_from_object_key-object_key}
use evnt_trden_public.Ops.Rearchive.Complete.{accounted, rearchive-accounted}
use evnt_trden_public.Tests.Reparse.{db}
use evnt_trden_public.Ops.Rearchive.{has_object}
use evnt_trden_public.Ingest.HousePdfs.{upload_outcome}
use evnt_trden_public.Storage.Quota.{archive_object, ensure_budget, current_usage_bytes}
use evnt_trden_public.Storage.Bucket.{upload}

abbrev entry : Text → Entry
entry key = record { object_key = key; filing_id = codes "house:2"; url = key }

abbrev entries : List Entry
entries = entry (codes "a") ∷ entry (codes "b") ∷ entry (codes "c") ∷ []

abbrev site : Text → Response
site url = if text_eq url (codes "b") then served (codes "PDF") else status_error 404 (codes "gone")

abbrev before : Rearchived
before = record {
  archive = record { objects = record { key = codes "a"; size = 3 } ∷ []; usage = [] };
  db = db;
  copied = 0;
  already_present = 0;
  failed = [];
}

abbrev digest : Text → Text
digest content = codes "hash"

after_run :
    let s = rearchive site digest (λ key. none) 100 entries before in
    (s.copied ≡ 1) × (s.already_present ≡ 1) × (s.failed ≡ codes "c" ∷ [])
unfolding rearchive has_object text_eq upload_outcome archive_object ensure_budget
    current_usage_bytes upload
after_run = (refl, refl, refl)

rearchive-accounted_example :
    let after = rearchive site digest (λ key. none) 100 entries before in
    All (λ (e : Entry). accounted e.object_key after ≡ true) entries
    × (WithinBudget 100 raw_bucket before.archive → WithinBudget 100 raw_bucket after.archive)
rearchive-accounted_example = rearchive-accounted site digest (λ key. none) 100 entries before

year_from_object_key-object_key_example :
    year_from_object_key (object_key 2015 (codes "20012345")) ≡ some 2015
year_from_object_key-object_key_example = year_from_object_key-object_key 2015 (codes "20012345")
