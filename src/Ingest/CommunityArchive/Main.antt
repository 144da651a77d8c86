-- ===== src/Ingest/CommunityArchive/Main.antt =====
-- `main` without its prints: what the two datasets answered is an argument.
pub mod Twice
use evnt_trden_public.Base.{ℕ, List, Text}
use evnt_trden_public.Base.Float.{Float}
use evnt_trden_public.Ingest.Index.{Fetched, fetched, fetch_failed}
use evnt_trden_public.Sources.CommunityArchive.{
  JsonRow, house_source, senate_source, fetch_house_stock_watcher, fetch_senate_stock_watcher,
}
use evnt_trden_public.Ingest.CommunityArchive.{
  CommunityTransaction, import_records, rematch_unmatched,
}
use evnt_trden_public.Ingest.CommunityArchive.Report.{Report, survivorship_report}

-- The counts that are printed and the report, or the exception that ended the run.
pub data Finish : Type 0 where
  reported : ℕ → ℕ → ℕ → Report → Finish
  raised : Text → Finish

module _ (sha256_hex : Text → Text) (repr : Float → Text) (filings : List Text) where
  -- `rematch_unmatched`, then the report.
  unfoldable pub settle_and_report :
      ℕ → ℕ → List CommunityTransaction → List CommunityTransaction × Finish
  settle_and_report house_imported senate_imported table =
      let (later, rematched) = rematch_unmatched filings table in
      (later, reported house_imported senate_imported rematched (survivorship_report later))

  -- The Senate's dataset; what the House's gave is stored by then.
  unfoldable pub import_senate :
      ℕ → Fetched JsonRow → List CommunityTransaction → List CommunityTransaction × Finish
  unfolding settle_and_report
  import_senate house_imported (fetch_failed error) table = (table, raised error)
  import_senate house_imported (fetched rows) table =
      let (stored, senate_imported) =
        import_records sha256_hex repr filings senate_source (fetch_senate_stock_watcher rows)
          table in
      settle_and_report house_imported senate_imported stored

  unfoldable pub main :
      Fetched JsonRow
      → Fetched JsonRow
      → List CommunityTransaction
      → List CommunityTransaction × Finish
  unfolding import_senate
  main (fetch_failed error) senate table = (table, raised error)
  main (fetched rows) senate table =
      let (stored, house_imported) =
        import_records sha256_hex repr filings house_source (fetch_house_stock_watcher rows)
          table in
      import_senate house_imported senate stored
