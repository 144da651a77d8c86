-- ===== src/Ingest/BackfillHouseReparse.antt =====
-- src/congress_collector/ingest/backfill_house_reparse.py: parsed House reports are parsed again, for
-- columns that an older parser left empty. The archive and the text extraction are arguments.
pub mod Twice
pub mod Fills
use evnt_trden_public.Base.{
  ℕ, ◌+◌, Bool, true, false, ◌&&◌, ◌||◌, not, Option, none, some, ◌>>=◌, is_some, value_or, List,
  [], ◌∷◌, map, keep, any, ◌==◌, if◌then◌else◌, Text, codes, text_eq, is_empty,
}
use evnt_trden_public.Db.{Filing, Transaction, Db, Chamber, house, senate}
use evnt_trden_public.Parsers.HousePtr.{Word, ParsedTransaction}
use evnt_trden_public.Parsers.HousePtr.Parse.{parse_ptr_transactions}
use evnt_trden_public.Ingest.HousePtrs.{Loaded, pages, load_error, parse_iso_date}

is_house : Chamber → Bool
is_house house = true
is_house senate = false

abbrev pub is_option : Option Text → Bool
is_option none = false
is_option (some type) = text_eq type (codes "OP")

-- `_NEEDS_BACKFILL`
unfoldable pub needs_backfill : Transaction → Bool
needs_backfill t =
    not (is_some t.source_transaction_id)
    || (is_option t.asset_type && not (is_some t.option_type))
    || not (is_some t.asset_type)

is_selected : Db → Filing → Bool
unfolding is_house needs_backfill
is_selected db f =
    is_house f.chamber
    && (is_some f.raw_object_key
        && any (λ t. text_eq t.filing_id f.filing_id && needs_backfill t) db.transactions)

unfoldable pub filings_needing_backfill : Db → List (Text × Text)
unfolding is_selected
filings_needing_backfill db =
    keep (λ p. not (is_empty p.1))
      (map (λ f. (f.filing_id, value_or [] f.raw_object_key)) (keep (is_selected db) db.filings))

-- `parsed_by_row.get(i)`: of two rows with one index the dict keeps the later one.
unfoldable pub parsed_by_row : ℕ → List ParsedTransaction → Option ParsedTransaction
parsed_by_row i [] = none
parsed_by_row i (t ∷ ts) =
    let here = if t.row_index == i then some t else none in
    elim (parsed_by_row i ts) [ none ↦ here | some later ↦ some later ]

-- A column that is empty gets what was parsed; with it, whether it changed.
unfoldable pub fill : Option Text → Option Text → Option Text × Bool
fill (some old) new = (some old, false)
fill none none = (none, false)
fill none (some new) = (some new, true)

unfoldable pub fill_source : ParsedTransaction → Transaction → Transaction × Bool
unfolding fill
fill_source p t =
    let (source, changed) = fill t.source_transaction_id p.source_transaction_id in
    (record t { source_transaction_id = source }, changed)

unfoldable pub fill_asset_type : ParsedTransaction → Transaction → Transaction × Bool
unfolding fill
fill_asset_type p t =
    let (type, changed) = fill t.asset_type p.asset_type in
    (record t { asset_type = type }, changed)

-- The three columns of an option are written at once; `none` is the `ValueError`.
unfoldable pub fill_option : ParsedTransaction → Transaction → Option (Transaction × Bool)
fill_option p t =
    if is_option t.asset_type && (not (is_some t.option_type) && is_some p.option_type)
    then (do
      expiry ← parse_iso_date p.expiry
      some (record t { option_type = p.option_type; strike = p.strike; expiry = expiry }, true))
    else some (t, false)

-- One row of the loop of `_apply`.
unfoldable pub fill_row : ParsedTransaction → Transaction → Option (Transaction × Bool)
unfolding fill_source fill_asset_type fill_option
fill_row p t =
    let (with_source, a) = fill_source p t in
    let (with_type, b) = fill_asset_type p with_source in
    fill_option p with_type >>= λ r. some (r.0, a || b || r.1)

fill_by : Option ParsedTransaction → Transaction → Option (Transaction × Bool)
fill_by none t = some (t, false)
fill_by (some p) t = fill_row p t

-- A row of another filing, or one that needs nothing, is not looked at.
unfoldable pub apply_row : Text → List ParsedTransaction → Transaction → Option (Transaction × Bool)
unfolding fill_by
apply_row id ts t =
    if text_eq t.filing_id id && needs_backfill t
    then fill_by (parsed_by_row t.row_index ts) t
    else some (t, false)

unfoldable pub apply_rows :
    Text → List ParsedTransaction → List Transaction → Option (List Transaction × ℕ)
unfolding apply_row
apply_rows id ts [] = some ([], 0)
apply_rows id ts (t ∷ rows) = do
  first ← apply_row id ts t
  rest ← apply_rows id ts rows
  some (first.0 ∷ rest.0, (if first.1 then 1 else 0) + rest.1)

-- `_apply`; an exception rolls its session back.
unfoldable pub apply : Text → List ParsedTransaction → Db → Option (Db × ℕ)
unfolding apply_rows
apply id ts db = do
  changed ← apply_rows id ts db.transactions
  some (record db { transactions = changed.0 }, changed.1)

-- The report of a download, if no exception ends the run.
unfoldable pub parse_loaded : Loaded → Option (List ParsedTransaction)
parse_loaded (load_error message) = none
parse_loaded (pages words) = parse_ptr_transactions words

pub record BackfillRun : Type 0 where
  pub db : Db
  pub updated : ℕ
  pub crashed : Bool

go_on : (Db → BackfillRun) → Db → Option (Db × ℕ) → BackfillRun
go_on rest db none = record { db = db; updated = 0; crashed = true }
go_on rest db (some (next, n)) = let run = rest next in record run { updated = n + run.updated }

module _ (download : Text → Loaded) where
  unfoldable pub backfill_all : List (Text × Text) → Db → BackfillRun
  unfolding go_on parse_loaded apply
  backfill_all [] db = record { db = db; updated = 0; crashed = false }
  backfill_all ((id, key) ∷ rest) db =
      go_on (backfill_all rest) db (parse_loaded (download key) >>= λ ts. apply id ts db)

  unfoldable pub backfill_missing_fields : Db → BackfillRun
  unfolding backfill_all filings_needing_backfill
  backfill_missing_fields db = backfill_all (filings_needing_backfill db) db
