-- ===== src/Ingest/TranscribedPtrs.antt =====
-- src/congress_collector/ingest/transcribed_ptrs.py: scanned House reports that were transcribed into a
-- CSV file. The file's rows are the argument, as `csv.DictReader` gives them, an absent cell being empty.
pub mod Rerun
use evnt_trden_public.Base.{
  ℕ, suc, ◌+◌, Bool, true, false, ◌&&◌, ◌||◌, not, Option, none, some, ◌>>=◌, is_some, value_or,
  map_option, or_else, List, [], ◌∷◌, ◌++◌, map, keep, any, length, ltb, leb, ◌==◌, if◌then◌else◌,
  Text, codes, text_eq, one_of, strip, upper, is_upper, is_space, is_empty, non_empty, dict_get,
}
use evnt_trden_public.Base.Decimal.{print_ℕ}
use evnt_trden_public.Base.Float.{Float}
use evnt_trden_public.Base.Calendar.{Date, from_iso}
use evnt_trden_public.Base.Regex.{
  Regex, one, rep, group, ends, star, ◌⊙◌, is_code, find_match, group_of,
}
use evnt_trden_public.Base.Sort.{sorted}
use evnt_trden_public.Db.{
  Filing, Transaction, Db, DqIssue, ParseStatus, pending, parsed, paper_deferred, failed,
  get_filing, update_filing,
}
use evnt_trden_public.Sources.House.{filing_id_for}
use evnt_trden_public.Parsers.Amounts.{parse_amount_range}

pub record RawRow : Type 0 where
  pub doc_id : Text
  pub asset_name : Text
  pub ticker : Text
  pub owner : Text
  pub tx_type : Text
  pub tx_date : Text
  pub notification_date : Text
  pub amount_band : Text
  pub confidence : Text
  pub review : Text
  pub note : Text

pub record TranscribedRow : Type 0 where
  pub filing_id : Text
  pub asset_description_raw : Text
  pub ticker : Option Text
  pub owner : Option Text
  pub tx_type : Option Text
  pub tx_date : Option Date
  pub notification_date : Option Date
  pub amount_min : Option Float
  pub amount_max : Option Float
  pub confidence : Option Text
  pub review : Option Text
  pub note : Option Text

pub record Provenance : Type 0 where
  pub transaction_id : ℕ
  pub method : Text
  pub confidence : Option Text
  pub review : Option Text
  pub note : Option Text
  pub source_file : Text

-- The House form's amount columns.
abbrev pub amount_bands : List (Text × Text)
amount_bands =
    (codes "A", codes "$1,001 - $15,000")
    ∷ (codes "B", codes "$15,001 - $50,000")
    ∷ (codes "C", codes "$50,001 - $100,000")
    ∷ (codes "D", codes "$100,001 - $250,000")
    ∷ (codes "E", codes "$250,001 - $500,000")
    ∷ (codes "F", codes "$500,001 - $1,000,000")
    ∷ (codes "G", codes "$1,000,001 - $5,000,000")
    ∷ (codes "H", codes "$5,000,001 - $25,000,000")
    ∷ (codes "I", codes "$25,000,001 - $50,000,000")
    ∷ (codes "J", codes "Over $50,000,000")
    ∷ []

abbrev pub tx_types : List Text
tx_types = codes "purchase" ∷ codes "sale_full" ∷ codes "sale_partial" ∷ codes "exchange" ∷ []

abbrev pub owners : List Text
owners = codes "self" ∷ codes "spouse" ∷ codes "joint" ∷ codes "child" ∷ []

-- `\(([A-Z][A-Z.\-]{0,5})\)\s*$`
abbrev ticker_in_name : Regex
ticker_in_name =
    one (is_code b'(')
    ⊙ group 1 (one is_upper ⊙ rep (λ c. is_upper c || c == b'.' || c == b'-') 0 (some 5))
    ⊙ one (is_code b')')
    ⊙ star is_space
    ⊙ ends

-- `_date`; the outer `none` is the `ValueError`.
unfoldable pub cell_date : Text → Option (Option Date)
cell_date value =
    let t = strip value in if is_empty t then some none else from_iso t >>= λ d. some (some d)

-- `x if x in allowed else None`
only_of : List Text → Text → Option Text
only_of allowed t = if one_of allowed t then some t else none

unfoldable pub ticker_of : Text → Text → Option Text
ticker_of cell name = elim (non_empty (upper (strip cell))) [
  | some t ↦ some t
  | none ↦ map_option (λ m. group_of 1 m) (find_match ticker_in_name (upper name))
]

unfoldable pub to_row : Text → Text → RawRow → Option TranscribedRow
unfolding cell_date only_of ticker_of
to_row filing_id name raw = do
  let amounts =
      parse_amount_range (value_or [] (dict_get (upper (strip raw.amount_band)) amount_bands))
  tx_date ← cell_date raw.tx_date
  notification_date ← cell_date raw.notification_date
  some (record {
    filing_id = filing_id;
    asset_description_raw = name;
    ticker = ticker_of raw.ticker name;
    owner = only_of owners (strip raw.owner);
    tx_type = only_of tx_types (strip raw.tx_type);
    tx_date = tx_date;
    notification_date = notification_date;
    amount_min = amounts.0;
    amount_max = amounts.1;
    confidence = non_empty (strip raw.confidence);
    review = non_empty (strip raw.review);
    note = non_empty (strip raw.note);
  })

unfoldable pub row_id : RawRow → Text
row_id raw = filing_id_for (strip raw.doc_id)

-- The rows of `read_csv` with the filing that each belongs to; one without an asset name says that the
-- filing has no transactions.
unfoldable pub read_rows : List RawRow → Option (List TranscribedRow)
unfolding to_row row_id
read_rows [] = some []
read_rows (raw ∷ raws) =
    let name = strip raw.asset_name in
    let rest = read_rows raws in
    if is_empty name
    then rest
    else to_row (row_id raw) name raw >>= λ row. rest >>= λ rows. some (row ∷ rows)

-- `s <= t` of texts
text_le : Text → Text → Bool
text_le [] t = true
text_le (a ∷ s) [] = false
text_le (a ∷ s) (b ∷ t) = ltb a b || (a == b && text_le s t)

distinct : List Text → List Text
distinct [] = []
distinct (t ∷ ts) = let rest = distinct ts in if one_of ts t then rest else t ∷ rest

-- `sorted(set(by_filing) | empty)`
unfoldable pub filing_ids_of : List RawRow → List Text
unfolding distinct text_le
filing_ids_of raws = sorted text_le (distinct (map row_id raws))

unfoldable pub rows_of : Text → List TranscribedRow → List TranscribedRow
rows_of id rows = keep (λ r. text_eq r.filing_id id) rows

pub record Import : Type 0 where
  pub db : Db
  pub provenance : List Provenance
  pub imported : ℕ
  pub added : ℕ
  pub skipped : ℕ

abbrev pub is_open : ParseStatus → Bool
is_open pending = false
is_open parsed = false
is_open paper_deferred = true
is_open failed = true

abbrev pub accepts : Option Filing → Bool
accepts none = false
accepts (some f) = is_open f.parse_status

-- Whether the file leaves the filing alone.
unfoldable pub skips : Text → Db → Bool
skips id db =
    not (accepts (get_filing id db.filings)) || any (λ t. text_eq t.filing_id id) db.transactions

unfoldable pub set_parsed : Filing → Filing
set_parsed f = record f { parse_status = parsed }

missing_type : Text → ℕ → TranscribedRow → DqIssue
missing_type id index row = record {
  filing_id = some id;
  transaction_id = none;
  issue_type = codes "unknown_tx_type";
  details =
      codes "transcribed row "
      ++ (print_ℕ index
          ++ (codes ": no transaction type on the form ("
              ++ (row.asset_description_raw ++ codes ")")));
  resolved_at = none;
}

module _ (transaction_id_for : Text → ℕ → ℕ) (file_name : Text) where
  transaction_of : Text → ℕ → TranscribedRow → Text → Transaction
  transaction_of id index row tx_type = record {
    transaction_id = transaction_id_for id index;
    filing_id = id;
    row_index = index;
    owner = row.owner;
    asset_description_raw = row.asset_description_raw;
    asset_type = none;
    ticker = row.ticker;
    instrument_id = none;
    option_type = none;
    strike = none;
    expiry = none;
    tx_type = tx_type;
    tx_date = row.tx_date;
    notification_date = row.notification_date;
    amount_min = row.amount_min;
    amount_max = row.amount_max;
    is_current = true;
    source_transaction_id = none;
  }

  provenance_of : Text → ℕ → TranscribedRow → Provenance
  provenance_of id index row = record {
    transaction_id = transaction_id_for id index;
    method = codes "transcribed";
    confidence = row.confidence;
    review = row.review;
    note = row.note;
    source_file = file_name;
  }

  add_issue : DqIssue → Import → Import
  add_issue issue s = record s { db = record s.db { dq_issues = s.db.dq_issues ++ issue ∷ [] } }

  add_transaction : Transaction → Provenance → Import → Import
  add_transaction t p s = record s {
    db = record s.db { transactions = s.db.transactions ++ t ∷ [] };
    provenance = s.provenance ++ p ∷ [];
    added = s.added + 1;
  }

  -- The rows of one filing, from a row index on.
  unfoldable pub add_rows : Text → ℕ → List TranscribedRow → Import → Import
  unfolding missing_type transaction_of provenance_of add_issue add_transaction
  add_rows id index [] s = s
  add_rows id index (row ∷ rows) s = add_rows id (suc index) rows (elim row.tx_type [
    | none ↦ add_issue (missing_type id index row) s
    | some type ↦ add_transaction (transaction_of id index row type) (provenance_of id index row) s
  ])

  finish : Text → Import → Import
  finish id s = record s {
    db = record s.db { filings = update_filing id set_parsed s.db.filings };
    imported = s.imported + 1;
  }

  unfoldable pub import_filing : List TranscribedRow → Import → Text → Import
  unfolding finish add_rows
  import_filing rows s id =
      if skips id s.db
      then record s { skipped = s.skipped + 1 }
      else finish id (add_rows id 0 (rows_of id rows) s)

  unfoldable pub import_all : List TranscribedRow → List Text → Import → Import
  unfolding import_filing
  import_all rows [] s = s
  import_all rows (id ∷ ids) s = import_all rows ids (import_filing rows s id)

  -- `import_csv`, from the tables; `none` is a `ValueError` of a date, after which nothing is written.
  unfoldable pub import_csv : List RawRow → Db → List Provenance → Option Import
  unfolding import_all
  import_csv raws db provenance = do
    rows ← read_rows raws
    some (
        import_all rows (filing_ids_of raws)
          (record { db = db; provenance = provenance; imported = 0; added = 0; skipped = 0 }))
