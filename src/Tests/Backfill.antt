-- ===== src/Tests/Backfill.antt =====
-- Rows that an older parser left with empty columns.
use evnt_trden_public.Base.{◌≡◌, refl, true, none, some, [], ◌∷◌, Text, codes}
use evnt_trden_public.Db.{Transaction, Db}
use evnt_trden_public.Parsers.HousePtr.{ParsedTransaction}
use evnt_trden_public.Ingest.HousePtrs.{Loaded, pages}
use evnt_trden_public.Ingest.BackfillHouseReparse.{apply, backfill_missing_fields, needs_backfill}
use evnt_trden_public.Ingest.BackfillHouseReparse.Fills.{Fills, backfill_missing_fields-Fills}
use evnt_trden_public.Tests.Reparse.{failed_report}
use evnt_trden_public.Tests.Reports.{page}
use evnt_trden_public.Base.{text_eq, is_digit}
use evnt_trden_public.Ingest.BackfillHouseReparse.{parsed_by_row, fill_row}
use evnt_trden_public.Ingest.HousePtrs.{parse_iso_date}
use evnt_trden_public.Base.Calendar.{from_iso}

abbrev pub old_row : Transaction
old_row = record {
  transaction_id = 1;
  filing_id = codes "house:2";
  row_index = 0;
  owner = none;
  asset_description_raw = codes "Call option";
  asset_type = none;
  ticker = none;
  instrument_id = none;
  option_type = none;
  strike = none;
  expiry = none;
  tx_type = codes "purchase";
  tx_date = none;
  notification_date = none;
  amount_min = none;
  amount_max = none;
  is_current = true;
  source_transaction_id = some (codes "20001");
}

abbrev parsed : ParsedTransaction
parsed = record {
  row_index = 0;
  owner = none;
  asset_description_raw = codes "Call option";
  ticker = none;
  asset_type = some (codes "OP");
  option_type = some (codes "call");
  strike = none;
  expiry = some (codes "2024-01-19");
  tx_type = some (codes "purchase");
  tx_date = none;
  notification_date = none;
  amount_min = none;
  amount_max = none;
  source_transaction_id = some (codes "20002");
}

abbrev db_of : Transaction → Db
db_of row = record {
  filings = failed_report ∷ [];
  transactions = row ∷ [];
  dq_issues = [];
  scrape_runs = [];
}

abbrev filled_row : Transaction
filled_row = record old_row {
  asset_type = some (codes "OP");
  option_type = some (codes "call");
  expiry = some (record { year = 2024; month = 1; day = 19 });
}

-- The source's id stays; the option's columns follow its type within one run.
one_filled : apply (codes "house:2") (parsed ∷ []) (db_of old_row) ≡ some (db_of filled_row, 1)
unfolding apply text_eq needs_backfill parsed_by_row fill_row parse_iso_date from_iso is_digit
one_filled = refl

abbrev download : Text → Loaded
download key = pages (page ∷ [])

backfill_missing_fields-Fills_example :
    Fills (db_of old_row) (backfill_missing_fields download (db_of old_row)).db
backfill_missing_fields-Fills_example = backfill_missing_fields-Fills download (db_of old_row)
