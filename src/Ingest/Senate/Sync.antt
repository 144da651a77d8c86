-- ===== src/Ingest/Senate/Sync.antt =====
-- Whole runs of `sync_senate_ptr_index` and `backfill_senate_since`.
use evnt_trden_public.Base.{
  ℕ, ◌≡◌, refl, true, false, none, some, is_some, List, [], ◌∷◌, length, if◌then◌else◌, arith,
  is_empty, ltb,
}
use evnt_trden_public.Db.{Filing, Db}
use evnt_trden_public.Sources.Senate.{SenateIndexEntry}
use evnt_trden_public.Ingest.Index.{Fetched, fetched, fetch_failed}
use evnt_trden_public.Ingest.Index.Run.{IsRecorded}
use evnt_trden_public.Ingest.Senate.{sync_senate_ptr_index, backfill_senate_since, notification}

message_lem :
    (new : List SenateIndexEntry)
    → is_some (if is_empty new then none else some (notification new)) ≡ ltb 0 (length new)
message_lem [] = refl
message_lem (e ∷ new) = ground arith

module _ (meanwhile : List Filing → List Filing) (started now finished : ℕ) where
  -- Every live run of the Senate index, failed or not, adds one scrape run: one that inserted filings
  -- says how many and sent a message just if there were any; one whose index failed says the error, and
  -- has changed no filing and sent nothing.
  pub sync_senate_ptr_index-IsRecorded :
      (precision_s : ℕ) (index : Fetched SenateIndexEntry) (db : Db)
      → IsRecorded true db
          (sync_senate_ptr_index meanwhile started now finished precision_s index db)
  unfolding sync_senate_ptr_index
  sync_senate_ptr_index-IsRecorded precision_s (fetch_failed error) db = record {
    row = _;
    added = refl;
    agrees = (refl, refl, refl, refl, refl);
  }
  sync_senate_ptr_index-IsRecorded precision_s (fetched es) db = record {
    row = _;
    added = refl;
    agrees = (refl, refl, refl, message_lem _);
  }

  -- So does every run of a backfill, which never sends a message.
  pub backfill_senate_since-IsRecorded :
      (index : Fetched SenateIndexEntry) (db : Db)
      → IsRecorded false db (backfill_senate_since meanwhile started now finished index db)
  unfolding backfill_senate_since
  backfill_senate_since-IsRecorded (fetch_failed error) db = record {
    row = _;
    added = refl;
    agrees = (refl, refl, refl, refl, refl);
  }
  backfill_senate_since-IsRecorded (fetched es) db = record {
    row = _;
    added = refl;
    agrees = (refl, refl, refl, refl);
  }
