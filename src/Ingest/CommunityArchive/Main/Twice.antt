-- ===== src/Ingest/CommunityArchive/Main/Twice.antt =====
-- The whole script is idempotent.
use evnt_trden_public.Base.{◌≡◌, refl, ◌∙◌, false, List, [], ◌∷◌, map, Text, text_eq, All}
use evnt_trden_public.Base.Float.{Float}
use evnt_trden_public.Ingest.Index.{fetched}
use evnt_trden_public.Sources.CommunityArchive.{
  JsonRow, CommunityRecord, house_source, senate_source, house_record, senate_record,
  fetch_house_stock_watcher, fetch_senate_stock_watcher,
}
use evnt_trden_public.Ingest.CommunityArchive.{CommunityTransaction, keys_of, import_records}
use evnt_trden_public.Ingest.CommunityArchive.Rows.{import_chunk_lem}
use evnt_trden_public.Ingest.CommunityArchive.Chunked.{
  after, keys_of-after, keys_of-other, import_records-import_chunk, import_records_none,
}
use evnt_trden_public.Ingest.CommunityArchive.Rematch.{
  settle, rematch_unmatched_lem, rematch_unmatched_twice,
}
use evnt_trden_public.Ingest.CommunityArchive.Late.{keys_of-settle}
use evnt_trden_public.Ingest.CommunityArchive.Report.{survivorship_report}
use evnt_trden_public.Ingest.CommunityArchive.Main.{
  reported, settle_and_report, import_senate, main,
}

house_rows :
    (rows : List JsonRow)
    → All (λ (r : CommunityRecord). r.source ≡ house_source) (fetch_house_stock_watcher rows)
unfolding fetch_house_stock_watcher house_record
house_rows [] = tt
house_rows (row ∷ rows) = (refl, house_rows rows)

senate_rows :
    (rows : List JsonRow)
    → All (λ (r : CommunityRecord). r.source ≡ senate_source) (fetch_senate_stock_watcher rows)
unfolding fetch_senate_stock_watcher senate_record
senate_rows [] = tt
senate_rows (row ∷ rows) = (refl, senate_rows rows)

differ : (text_eq senate_source house_source ≡ false) × (text_eq house_source senate_source ≡ false)
unfolding text_eq
differ = (refl, refl)

module _ (sha256_hex : Text → Text) (repr : Float → Text) (filings : List Text)
    (house senate : List JsonRow) (table : List CommunityTransaction) where
  abbrev hs : List CommunityRecord
  hs = fetch_house_stock_watcher house

  abbrev ss : List CommunityRecord
  ss = fetch_senate_stock_watcher senate

  abbrev with_house : List CommunityTransaction
  with_house = after sha256_hex repr filings house_source hs table

  abbrev with_both : List CommunityTransaction
  with_both = after sha256_hex repr filings senate_source ss with_house

  abbrev later : List CommunityTransaction
  later = map (settle filings) with_both

  main_lem : (main sha256_hex repr filings (fetched house) (fetched senate) table).0 ≡ later
  unfolding main import_senate settle_and_report
  main_lem =
      rw
        (
          import_records-import_chunk sha256_hex repr filings house_source hs table
              (house_rows house),
          import_chunk_lem sha256_hex repr filings house_source hs table,
          import_records-import_chunk sha256_hex repr filings senate_source ss with_house
              (senate_rows senate),
          import_chunk_lem sha256_hex repr filings senate_source ss with_house,
          rematch_unmatched_lem filings with_both,
        )
        refl

  house_again : import_records sha256_hex repr filings house_source hs later ≡ (later, 0)
  house_again =
      import_records_none sha256_hex repr filings house_source hs later (keys_of house_source table)
        (house_rows house)
        (keys_of-settle filings house_source with_both
          ∙ keys_of-other sha256_hex repr filings house_source senate_source ss with_house differ.0
              (senate_rows senate)
          ∙ keys_of-after sha256_hex repr filings house_source hs table (house_rows house))

  senate_again : import_records sha256_hex repr filings senate_source ss later ≡ (later, 0)
  senate_again =
      import_records_none sha256_hex repr filings senate_source ss later
        (keys_of senate_source with_house) (senate_rows senate)
        (keys_of-settle filings senate_source with_both
          ∙ keys_of-after sha256_hex repr filings senate_source ss with_house (senate_rows senate))

  second :
      main sha256_hex repr filings (fetched house) (fetched senate) later
      ≡ (later, reported 0 0 0 (survivorship_report later))
  unfolding main import_senate settle_and_report
  second = rw (house_again, senate_again, rematch_unmatched_twice filings with_both) refl

  -- A second run on the same two datasets, with the same filings stored, inserts and matches no row and
  -- leaves the table as the first run left it.
  pub main_twice :
      let (once, finish) = main sha256_hex repr filings (fetched house) (fetched senate) table in
      main sha256_hex repr filings (fetched house) (fetched senate) once
      ≡ (once, reported 0 0 0 (survivorship_report once))
  main_twice = rw main_lem second
