-- ===== src/Ingest/Amendments.antt =====
-- src/congress_collector/ingest/amendments.py: of the rows that share a source id across filings only the
-- most recently filed one is current.
pub mod Current
use evnt_trden_public.Base.{
  ℕ, ◌+◌, Bool, true, false, ◌&&◌, ◌||◌, not, Option, none, some, is_some, value_or, map_option,
  List, [], ◌∷◌, ◌++◌, map, keep, any, count_if, length, ltb, leb, ◌==◌, if◌then◌else◌, Text,
  text_eq, one_of,
}
use evnt_trden_public.Base.Calendar.{Date, date_lt}
use evnt_trden_public.Base.Sort.{sorted}
use evnt_trden_public.Db.{Filing, Transaction, Db, get_filing, update_filing}

pub record GroupRow : Type 0 where
  pub tx : Transaction
  pub filing : Filing

unfoldable pub has_source : Text → Transaction → Bool
has_source source t = elim t.source_transaction_id [ none ↦ false | some s ↦ text_eq s source ]

-- The rows of the SELECT: the transactions of the source id with their filings.
with_filing : Transaction → Option Filing → List GroupRow → List GroupRow
with_filing t none rest = rest
with_filing t (some f) rest = record { tx = t; filing = f } ∷ rest

unfoldable pub group_rows : Text → List Filing → List Transaction → List GroupRow
unfolding with_filing has_source
group_rows source filings [] = []
group_rows source filings (t ∷ ts) =
    let rest = group_rows source filings ts in
    if has_source source t then with_filing t (get_filing t.filing_id filings) rest else rest

-- `date.min`
abbrev min_date : Date
min_date = record { year = 1; month = 1; day = 1 }

filed : GroupRow → Date
filed r = value_or min_date r.filing.filed_date

-- `(filed_date or date.min, first_seen_at)` in order
unfoldable pub filed_le : GroupRow → GroupRow → Bool
unfolding filed date_lt
filed_le r s =
    date_lt (filed r) (filed s)
    || (not (date_lt (filed s) (filed r)) && leb r.filing.first_seen_at s.filing.first_seen_at)

-- `ordered[0]`, `ordered[-1]`
last_of : GroupRow → List GroupRow → GroupRow
last_of r [] = r
last_of r (s ∷ rows) = last_of s rows

-- The value that `is_current` takes, for the rows of the group.
unfoldable pub should_be_current : Text → List Filing → ℕ → Transaction → Bool
unfolding has_source
should_be_current source filings newest t =
    if has_source source t && is_some (get_filing t.filing_id filings)
    then t.transaction_id == newest
    else t.is_current

unfoldable pub set_current : Text → List Filing → ℕ → Transaction → Transaction
unfolding should_be_current
set_current source filings newest t = record t {
  is_current = should_be_current source filings newest t;
}

bool_eq : Bool → Bool → Bool
bool_eq true b = b
bool_eq false b = not b

unfoldable pub changes : Text → List Filing → ℕ → Transaction → Bool
unfolding should_be_current bool_eq
changes source filings newest t =
    not (bool_eq t.is_current (should_be_current source filings newest t))

unfoldable pub supersede : Text → Filing → Filing
supersede oldest f =
    if is_some f.supersedes_filing_id then f else record f { supersedes_filing_id = some oldest }

-- The two ends of the group, in the order of filing.
unfoldable pub apply_ends : Text → Db → List GroupRow → Db × ℕ
unfolding set_current changes supersede last_of
apply_ends source db [] = (db, 0)
apply_ends source db (oldest ∷ rows) =
    let newest = last_of oldest rows in
    (
      record db {
        transactions = map (set_current source db.filings newest.tx.transaction_id) db.transactions;
        filings =
            if text_eq newest.filing.filing_id oldest.filing.filing_id
            then db.filings
            else update_filing newest.filing.filing_id (supersede oldest.filing.filing_id)
                db.filings;
      },
      count_if (changes source db.filings newest.tx.transaction_id) db.transactions,
    )

unfoldable pub resolve_group : Text → Db → Db × ℕ
unfolding apply_ends
resolve_group source db =
    let rows = group_rows source db.filings db.transactions in
    if ltb (length rows) 2 then (db, 0) else apply_ends source db (sorted filed_le rows)

-- The source ids that stand on rows of more than one filing, each once.
unfoldable pub spans_filings : Text → List Transaction → Bool
unfolding has_source
spans_filings source [] = false
spans_filings source (t ∷ ts) =
    (has_source source t
      && any (λ u. has_source source u && not (text_eq u.filing_id t.filing_id)) ts)
    || spans_filings source ts

sources_onto : List Text → List Transaction → List Text
sources_onto seen [] = []
sources_onto seen (t ∷ ts) = elim t.source_transaction_id [
  | none ↦ sources_onto seen ts
  | some s ↦ if one_of seen s then sources_onto seen ts else s ∷ sources_onto (s ∷ seen) ts
]

unfoldable pub amended_source_ids : List Transaction → List Text
unfolding sources_onto
amended_source_ids ts = keep (λ s. spans_filings s ts) (sources_onto [] ts)

unfoldable pub resolve_all : List Text → Db → Db × ℕ
unfolding resolve_group
resolve_all [] db = (db, 0)
resolve_all (s ∷ sources) db =
    let (next, updated) = resolve_group s db in
    let (after, more) = resolve_all sources next in (after, updated + more)

unfoldable pub link_amendments : Db → Db × ℕ
unfolding resolve_all amended_source_ids
link_amendments db = resolve_all (amended_source_ids db.transactions) db
