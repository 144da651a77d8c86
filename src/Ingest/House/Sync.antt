-- ===== src/Ingest/House/Sync.antt =====
-- Whole runs of `sync_house_index` and `backfill_house_year`.
use evnt_trden_public.Base.{
  ℕ, ◌≡◌, refl, true, false, none, some, is_some, List, [], ◌∷◌, length, if◌then◌else◌, arith,
  is_empty, ltb,
}
use evnt_trden_public.Db.{Filing, Db}
use evnt_trden_public.Sources.House.{HouseIndexEntry}
use evnt_trden_public.Ingest.Index.{Fetched, fetched, fetch_failed}
use evnt_trden_public.Ingest.Index.Run.{IsRecorded}
use evnt_trden_public.Ingest.House.{sync_house_index, backfill_house_year, notification}

message_lem :
    (new : List HouseIndexEntry)
    → is_some (if is_empty new then none else some (notification new)) ≡ ltb 0 (length new)
message_lem [] = refl
message_lem (e ∷ new) = ground arith

module _ (meanwhile : List Filing → List Filing) (started now finished : ℕ) where
  -- Every live run, failed or not, adds one row to `scrape_runs`: a run that inserted filings says how
  -- many and sent a message just if there were any; a run whose index failed says the error, and
  -- has changed no filing and sent nothing.
  sync_house_index-IsRecorded :
      (precision_s : ℕ) (index : Fetched HouseIndexEntry) (db : Db)
      → IsRecorded true db (sync_house_index meanwhile started now finished precision_s index db)
  unfolding sync_house_index
  sync_house_index-IsRecorded precision_s (fetch_failed error) db = record {
    row = _;
    added = refl;
    agrees = (refl, refl, refl, refl, refl);
  }
  sync_house_index-IsRecorded precision_s (fetched es) db = record {
    row = _;
    added = refl;
    agrees = (refl, refl, refl, message_lem _);
  }

  -- So does every run of a year's backfill, which never sends a message.
  pub backfill_house_year-IsRecorded :
      (index : Fetched HouseIndexEntry) (db : Db)
      → IsRecorded false db (backfill_house_year meanwhile started now finished index db)
  unfolding backfill_house_year
  backfill_house_year-IsRecorded (fetch_failed error) db = record {
    row = _;
    added = refl;
    agrees = (refl, refl, refl, refl, refl);
  }
  backfill_house_year-IsRecorded (fetched es) db = record {
    row = _;
    added = refl;
    agrees = (refl, refl, refl, refl);
  }
