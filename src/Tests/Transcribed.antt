-- ===== src/Tests/Transcribed.antt =====
-- A transcribed file of two lines: a purchase, and one without a type.
use evnt_trden_public.Base.{
  ℕ, ◌≡◌, refl, false, none, some, List, [], ◌∷◌, Text, codes, text_eq, length, pos,
}
use evnt_trden_public.Base.Float.{finite}
use evnt_trden_public.Db.{Filing, Db, scanned, paper_deferred}
use evnt_trden_public.Ingest.TranscribedPtrs.{
  RawRow, TranscribedRow, Import, read_rows, filing_ids_of, import_all, import_csv,
}
use evnt_trden_public.Ingest.TranscribedPtrs.Rerun.{import_csv_twice}
use evnt_trden_public.Tests.Pdfs.{filing}
use evnt_trden_public.Base.{
  strip, is_digit, non_empty, one_of, upper, dict_get, starts_with, lower, has_code, split_once,
  remove_code,
}
use evnt_trden_public.Base.Calendar.{from_iso}
use evnt_trden_public.Sources.House.{filing_id_for}
use evnt_trden_public.Parsers.Amounts.{parse_amount_range, to_number}
use evnt_trden_public.Base.Regex.{find_match, group_of}
use evnt_trden_public.Base.Float.{float}

abbrev raw : Text → Text → RawRow
raw name type = record {
  doc_id = codes "9107579";
  asset_name = name;
  ticker = [];
  owner = codes "joint";
  tx_type = type;
  tx_date = codes "2016-02-29";
  notification_date = [];
  amount_band = codes "b";
  confidence = codes "high";
  review = [];
  note = [];
}

abbrev raws : List RawRow
raws = raw (codes "Apple Inc. (AAPL)") (codes "purchase") ∷ raw (codes "A note") [] ∷ []

abbrev scan : Filing
scan = record (filing (codes "house:9107579") (codes "P")) {
  format = scanned;
  parse_status = paper_deferred;
}

abbrev db : Db
db = record { filings = scan ∷ []; transactions = []; dq_issues = []; scrape_runs = [] }

abbrev row_key : Text → ℕ → ℕ
row_key id i = i

abbrev file : Text
file = codes "batch.csv"

abbrev row : TranscribedRow
row = record {
  filing_id = codes "house:9107579";
  asset_description_raw = codes "Apple Inc. (AAPL)";
  ticker = some (codes "AAPL");
  owner = some (codes "joint");
  tx_type = some (codes "purchase");
  tx_date = some (record { year = 2016; month = 2; day = 29 });
  notification_date = none;
  amount_min = some (finite false 15001 (pos 0));
  amount_max = some (finite false 50000 (pos 0));
  confidence = some (codes "high");
  review = none;
  note = none;
}

abbrev untyped : TranscribedRow
untyped = record row { asset_description_raw = codes "A note"; ticker = none; tx_type = none }

read_test : read_rows raws ≡ some (row ∷ untyped ∷ [])
unfolding read_rows strip from_iso is_digit filing_id_for non_empty one_of parse_amount_range upper
    text_eq dict_get find_match starts_with group_of lower has_code split_once to_number remove_code
    float
read_test = refl

abbrev start : Import
start = record { db = db; provenance = []; imported = 0; added = 0; skipped = 0 }

abbrev first_run : Import
first_run = import_all row_key file (row ∷ untyped ∷ []) (filing_ids_of raws) start

import_csv-first : import_csv row_key file raws db [] ≡ some first_run
unfolding import_csv
import_csv-first = rw read_test refl

import_csv_twice_example :
    import_csv row_key file raws first_run.db first_run.provenance
    ≡ some (record {
      db = first_run.db;
      provenance = first_run.provenance;
      imported = 0;
      added = 0;
      skipped = length (filing_ids_of raws);
    })
import_csv_twice_example = import_csv_twice row_key file raws db [] first_run import_csv-first
