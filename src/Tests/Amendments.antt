-- ===== src/Tests/Amendments.antt =====
-- A transaction that a later filing amends.
use evnt_trden_public.Base.{
  ℕ, ◌≡◌, refl, true, none, some, [], ◌∷◌, Text, codes, text_eq, one_of, arith,
}
use evnt_trden_public.Base.Sort.{sorted}
use evnt_trden_public.Db.{Filing, Db, Transaction, get_filing}
use evnt_trden_public.Ingest.Amendments.{
  resolve_group, link_amendments, group_rows, filed_le, spans_filings,
}
use evnt_trden_public.Ingest.Amendments.Current.{IsResolved, resolve_group-IsResolved}
use evnt_trden_public.Tests.Pdfs.{filing}

abbrev pub tx : ℕ → Text → Transaction
tx id filing_id = record {
  transaction_id = id;
  filing_id = filing_id;
  row_index = 0;
  owner = none;
  asset_description_raw = codes "Apple";
  asset_type = none;
  ticker = none;
  instrument_id = none;
  option_type = none;
  strike = none;
  expiry = none;
  tx_type = codes "purchase";
  tx_date = none;
  notification_date = none;
  amount_min = none;
  amount_max = none;
  is_current = true;
  source_transaction_id = some (codes "77");
}

abbrev amendment : Filing
amendment = record (filing (codes "house:2") (codes "P")) {
  filed_date = some (record { year = 2017; month = 1; day = 9 });
}

abbrev db : Db
db = record {
  filings = amendment ∷ filing (codes "house:1") (codes "P") ∷ [];
  transactions = tx 1 (codes "house:2") ∷ tx 2 (codes "house:1") ∷ [];
  dq_issues = [];
  scrape_runs = [];
}

-- The row of the first filing is no longer current.
link_test : (link_amendments db).1 ≡ 1
unfolding link_amendments one_of spans_filings text_eq group_rows get_filing sorted filed_le
link_test = refl

resolve_group-IsResolved_example : IsResolved (codes "77") db (resolve_group (codes "77") db).0
resolve_group-IsResolved_example =
    resolve_group-IsResolved (codes "77") db (unfold get_filing text_eq in (refl, (refl, tt))) refl
      (unfold group_rows get_filing text_eq in omega arith)
