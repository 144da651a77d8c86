-- ===== src/Tests/Pdfs.antt =====
-- A run of the PDF archive with one filing that the site serves a year earlier, one that it does not
-- have, and one for which the budget has no room.
use evnt_trden_public.Base.{
  ◌+◌, ◌-◌, ◌≡◌, ◌||◌, Option, none, some, [], ◌∷◌, any, Text, codes, text_eq, arith, if◌then◌else◌,
  ◌↔◌,
}
use evnt_trden_public.Db.{Filing, Db, house, unknown, pending}
use evnt_trden_public.Storage.Bucket.{total_size}
use evnt_trden_public.Storage.Quota.{Archive, current_usage_bytes}
use evnt_trden_public.Storage.Quota.Budget.{WithinBudget}
use evnt_trden_public.Ingest.HousePdfs.{
  Response, served, status_error, archive_pending_house_pdfs, Archiving, fetch_pending, fetch_pdf,
  got, raw_bucket,
}
use evnt_trden_public.Ingest.HousePdfs.Batch.{
  IsBest, fetch_pending-IsBest, Serves, fetch_pdf-Serves,
}
use evnt_trden_public.Ingest.HousePdfs.Settled.{
  settled, archive_pending_house_pdfs-WithinBudget, archive_pending_house_pdfs-settled,
}

abbrev pub filing : Text → Text → Filing
filing id type = record {
  filing_id = id;
  chamber = house;
  filer_name = codes "Jane Doe";
  bioguide_id = none;
  filing_type = type;
  filed_date = some (record { year = 2016; month = 3; day = 1 });
  first_seen_at = 0;
  first_seen_precision_s = 300;
  format = unknown;
  parse_status = pending;
  raw_object_key = none;
  raw_sha256 = none;
  supersedes_filing_id = none;
}

abbrev pub db : Db
db = record {
  filings = filing (codes "house:1") (codes "X") ∷ filing (codes "house:2") (codes "P") ∷ [];
  transactions = [];
  dq_issues = [];
  scrape_runs = [];
}

-- Of these two only the second is served, and in the folder of the year before.
abbrev pub site : Text → Response
site url =
    if text_eq url (codes "https://disclosures-clerk.house.gov/public_disc/ptr-pdfs/2015/2.pdf")
    then served (codes "%PDF")
    else status_error 404 (codes "404")

abbrev pub digest : Text → Text
digest content = codes "digest"

abbrev pub uploads : Text → Option Text
uploads key = none

abbrev pub archive : Archive
archive = record { objects = []; usage = [] }

abbrev run : Archiving
run = archive_pending_house_pdfs site digest uploads 100 7 2024 50 archive db

archive-WithinBudget : WithinBudget 100 raw_bucket archive
archive-WithinBudget =
    unfold total_size current_usage_bytes in record { held = omega arith; recorded = omega arith }

archive_pending_house_pdfs-WithinBudget_example : WithinBudget 100 raw_bucket run.archive
archive_pending_house_pdfs-WithinBudget_example =
    archive_pending_house_pdfs-WithinBudget site digest uploads 100 7 2024 50 archive db
      archive-WithinBudget

archive_pending_house_pdfs-settled_example : settled (codes "house:1") run.db ≡ (
    settled (codes "house:1") db
    || any (λ f. text_eq f.filing_id (codes "house:1")) (fetch_pending 50 db))
archive_pending_house_pdfs-settled_example =
    archive_pending_house_pdfs-settled site digest uploads 100 7 2024 50 archive db
      (codes "house:1")

fetch_pending-IsBest_example : IsBest 1 db (fetch_pending 1 db)
fetch_pending-IsBest_example = fetch_pending-IsBest 1 db

fetch_pdf-Serves_example :
    (fetch_pdf site (codes "2") (codes "P") 2016 ≡ got 2015 (codes "%PDF"))
    ↔ Serves site (codes "2") (codes "P") (2016 ∷ (2016 - 1) ∷ (2016 + 1) ∷ []) 2015 (codes "%PDF")
fetch_pdf-Serves_example = fetch_pdf-Serves site (codes "2") (codes "P") 2016 2015 (codes "%PDF")
