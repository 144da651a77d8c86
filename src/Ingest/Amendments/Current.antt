-- ===== src/Ingest/Amendments/Current.antt =====
-- What resolving one group leaves.
use mathlib.Core.List.{Perm}
use mathlib.Core.List.Perm
use evnt_trden_public.Base.{
  ◌+◌, ◌⊎◌, inl, inr, Bool-cases, value_or, ℕ, ◌≤◌, ◌≡◌, refl, ◌∙◌, Bool, true, false, ◌&&◌, not,
  Option, none, some, is_some, List, [], ◌∷◌, map, keep, any, count_if, All, All-map, length, ltb,
  ◌==◌, Text, arith,
}
use evnt_trden_public.Base.Calendar.{Date, date_lt}
use evnt_trden_public.Base.Sort.{
  sorted, sorted-All, sorted-perm, sorted-Ascending, Ascending, length-sorted,
}
use evnt_trden_public.Db.{Filing, Transaction, Db, get_filing}
use evnt_trden_public.Ingest.Amendments.{
  GroupRow, filed, has_source, with_filing, group_rows, filed_le, last_of, set_current,
  should_be_current, apply_ends, resolve_group,
}

abbrev pub unique_ids : List Transaction → Bool
unique_ids [] = true
unique_ids (t ∷ ts) = not (any (λ u. u.transaction_id == t.transaction_id) ts) && unique_ids ts

-- Every transaction has its filing.
abbrev pub HasFilings : Db → Type 0
HasFilings db = All (λ t. is_some (get_filing t.filing_id db.filings) ≡ true) db.transactions

abbrev pub is_row : Text → ℕ → Transaction → Bool
is_row source id t = has_source source t && t.transaction_id == id

abbrev pub is_current_row : Text → Transaction → Bool
is_current_row source t = has_source source t && t.is_current

filed_le-total : (r s : GroupRow) → filed_le r s ≡ false → filed_le s r ≡ true
unfolding filed_le
filed_le-total r s h = ground arith

filed_le_trans :
    (r s t : GroupRow) → filed_le r s ≡ true → filed_le s t ≡ true → filed_le r t ≡ true
unfolding filed_le
filed_le_trans r s t h k = ground arith

-- The last row of a list in order stands behind the first one.
last_of-behind :
    (r s : GroupRow) (rows : List GroupRow)
    → filed_le r s ≡ true
    → Ascending filed_le (s ∷ rows)
    → filed_le r (last_of s rows) ≡ true
unfolding last_of
last_of-behind r s [] rs h = rs
last_of-behind r s (t ∷ rows) rs (st, h) = last_of-behind r t rows (filed_le_trans r s t rs st) h

-- No filing date is the first day of the year 1.
abbrev day_filed : GroupRow → Date
day_filed r = value_or (record { year = 1; month = 1; day = 1 }) r.filing.filed_date

-- `r` was filed on an earlier day than `s`, or on no later one and not seen later.
abbrev pub IsFiledBefore : GroupRow → GroupRow → Type 0
IsFiledBefore r s =
    (date_lt (day_filed r) (day_filed s) ≡ true)
    ⊎ ((date_lt (day_filed s) (day_filed r) ≡ false)
        × (r.filing.first_seen_at ≤ s.filing.first_seen_at))

filed_le-IsFiledBefore : (r s : GroupRow) → filed_le r s ≡ true → IsFiledBefore r s
unfolding filed_le filed
filed_le-IsFiledBefore r s h = elim (Bool-cases (date_lt (day_filed r) (day_filed s))) [
  | inl e ↦ inl e
  | inr e ↦ inr (ground arith, ground arith)
]

-- The last row of a list in order is the latest: the others stand before it.
last_of-latest :
    (P : GroupRow → Type 0) (r : GroupRow) (rows : List GroupRow)
    → Ascending filed_le (r ∷ rows)
    → All P (r ∷ rows)
    → (others : List GroupRow) × Perm (r ∷ rows) (last_of r rows ∷ others)
      × All (λ s. IsFiledBefore s (last_of r rows)) others
      × (P (last_of r rows) × All P others)
      × (length rows ≡ length others)
unfolding last_of
last_of-latest P r [] h k = ([], Perm.refl (r ∷ []), tt, k, refl)
last_of-latest P r (s ∷ rows) (rs, h) (pr, k) =
    let (others, same, before, (pl, ps), size) = last_of-latest P s rows h k in
    (
      r ∷ others,
      Perm.trans (Perm.cons r same) (Perm.swap (last_of s rows) r others),
      (filed_le-IsFiledBefore r (last_of s rows) (last_of-behind r s rows rs h), before),
      (pl, (pr, ps)),
      omega arith,
    )

-- A row of the group: one of the transactions of the source id, with its own filing.
abbrev pub IsRow : Text → List Filing → List Transaction → GroupRow → Type 0
IsRow source filings ts r =
    (get_filing r.tx.filing_id filings ≡ some r.filing)
    × (any (is_row source r.tx.transaction_id) ts ≡ true)

IsRow-skip :
    (source : Text) (filings : List Filing) (t : Transaction) (ts : List Transaction)
    (rows : List GroupRow)
    → All (IsRow source filings ts) rows
    → All (IsRow source filings (t ∷ ts)) rows
IsRow-skip source filings t ts rows h = All-map _ _ (λ r k. (k.0, ground (arith, k.1))) rows h

with_filing-IsRow :
    (source : Text) (filings : List Filing) (t : Transaction) (ts : List Transaction)
    (f : Option Filing) (rows : List GroupRow)
    → get_filing t.filing_id filings ≡ f
    → has_source source t ≡ true
    → All (IsRow source filings (t ∷ ts)) rows
    → All (IsRow source filings (t ∷ ts)) (with_filing t f rows)
unfolding with_filing
with_filing-IsRow source filings t ts none rows own e h = h
with_filing-IsRow source filings t ts (some f) rows own e h = ((own, ground arith), h)

group_rows-IsRow :
    (source : Text) (filings : List Filing) (ts : List Transaction)
    → All (IsRow source filings ts) (group_rows source filings ts)
unfolding group_rows
group_rows-IsRow source filings [] = tt
group_rows-IsRow source filings (t ∷ ts) =
    let rows = group_rows source filings ts in
    let before = IsRow-skip source filings t ts rows (group_rows-IsRow source filings ts) in
    elim (Bool-cases (has_source source t)) [
      | inl e ↦ rw e (
          with_filing-IsRow source filings t ts (get_filing t.filing_id filings) rows refl e before)
      | inr e ↦ rw e before
    ]

with_filing-size :
    (t : Transaction) (f : Option Filing) (rows : List GroupRow)
    → is_some f ≡ true
    → length (with_filing t f rows) ≡ 1 + length rows
unfolding with_filing
with_filing-size t none rows h = absurd cc
with_filing-size t (some f) rows h = omega arith

group_rows-size :
    (source : Text) (filings : List Filing) (ts : List Transaction)
    → All (λ t. is_some (get_filing t.filing_id filings) ≡ true) ts
    → length (group_rows source filings ts) ≡ count_if (has_source source) ts
unfolding group_rows
group_rows-size source filings [] h = refl
group_rows-size source filings (t ∷ ts) (own, h) = ground (
  arith,
  group_rows-size source filings ts h,
  with_filing-size t (get_filing t.filing_id filings) (group_rows source filings ts) own,
)

no_row :
    (source : Text) (id : ℕ) (ts : List Transaction)
    → any (λ u. u.transaction_id == id) ts ≡ false
    → count_if (is_row source id) ts ≡ 0
no_row source id [] h = refl
no_row source id (t ∷ ts) h = ground (arith, no_row source id ts)

one_row :
    (source : Text) (id : ℕ) (ts : List Transaction)
    → unique_ids ts ≡ true
    → any (is_row source id) ts ≡ true
    → count_if (is_row source id) ts ≡ 1
one_row source id [] u h = absurd cc
one_row source id (t ∷ ts) u h =
    ground (arith, one_row source id ts, no_row source t.transaction_id ts)

current_rows :
    (source : Text) (filings : List Filing) (id : ℕ) (ts : List Transaction)
    → All (λ t. is_some (get_filing t.filing_id filings) ≡ true) ts
    → count_if (is_current_row source) (map (set_current source filings id) ts)
      ≡ count_if (is_row source id) ts
unfolding set_current should_be_current has_source
current_rows source filings id [] h = refl
current_rows source filings id (t ∷ ts) h = ground (arith, current_rows source filings id ts h.1)

other_rows :
    (source : Text) (filings : List Filing) (id : ℕ) (ts : List Transaction)
    → keep (λ t. not (has_source source t)) (map (set_current source filings id) ts)
      ≡ keep (λ t. not (has_source source t)) ts
unfolding set_current should_be_current has_source
other_rows source filings id [] = refl
other_rows source filings id (t ∷ ts) = ground (arith, other_rows source filings id ts)

-- The group after it was resolved: of its rows, which are as many as the transactions of the source id
-- and each one of them with its own filing, just one is current, than which no other one is filed later;
-- the rows of other source ids are as they were.
pub record IsResolved (source : Text) (before after : Db) : Type 0 where
  pub newest : GroupRow
  pub others : List GroupRow
  pub all : Perm (group_rows source before.filings before.transactions) (newest ∷ others)
  pub rows : All (IsRow source before.filings before.transactions) (newest ∷ others)
  pub size : length (newest ∷ others) ≡ count_if (has_source source) before.transactions
  pub latest : All (λ r. IsFiledBefore r newest) others
  pub one : count_if (is_current_row source) after.transactions ≡ 1
  pub is_newest :
      any (λ t. is_row source newest.tx.transaction_id t && t.is_current) after.transactions ≡ true
  pub other_sources :
      keep (λ t. not (has_source source t)) after.transactions
      ≡ keep (λ t. not (has_source source t)) before.transactions

newest_current :
    (source : Text) (filings : List Filing) (id : ℕ) (ts : List Transaction)
    → All (λ t. is_some (get_filing t.filing_id filings) ≡ true) ts
    → any (λ t. is_row source id t && t.is_current) (map (set_current source filings id) ts)
      ≡ any (is_row source id) ts
unfolding set_current should_be_current has_source
newest_current source filings id [] h = refl
newest_current source filings id (t ∷ ts) h =
    ground (arith, newest_current source filings id ts h.1)

few_lem : (n : ℕ) → 2 ≤ n → ltb n 2 ≡ false
few_lem n h = ground arith

apply_ends-IsResolved :
    (source : Text) (db : Db) (rows : List GroupRow)
    → HasFilings db
    → unique_ids db.transactions ≡ true
    → ltb 0 (length rows) ≡ true
    → length rows ≡ count_if (has_source source) db.transactions
    → Ascending filed_le rows
    → All (IsRow source db.filings db.transactions) rows
    → Perm (group_rows source db.filings db.transactions) rows
    → IsResolved source db (apply_ends source db rows).0
unfolding apply_ends
apply_ends-IsResolved source db [] f u full n a h p = absurd (ground arith)
apply_ends-IsResolved source db (oldest ∷ rows) f u full n a h p =
    let newest = last_of oldest rows in
    let (others, same, before, (row, more), size) =
      last_of-latest (IsRow source db.filings db.transactions) oldest rows a h in
    record {
      newest = newest;
      others = others;
      all = Perm.trans p same;
      rows = (row, more);
      size = omega (arith, n, size);
      latest = before;
      one =
          current_rows source db.filings newest.tx.transaction_id db.transactions f
          ∙ one_row source newest.tx.transaction_id db.transactions u row.1;
      is_newest =
          newest_current source db.filings newest.tx.transaction_id db.transactions f ∙ row.1;
      other_sources = other_rows source db.filings newest.tx.transaction_id db.transactions;
    }

-- A group of at least two rows is resolved, if the keys of the transactions are unique and each has its
-- filing: just one of its rows is current afterwards, a row than which no other one of the group is
-- filed later, and the rows of other source ids are as they were.
pub resolve_group-IsResolved :
    (source : Text) (db : Db)
    → HasFilings db
    → unique_ids db.transactions ≡ true
    → 2 ≤ length (group_rows source db.filings db.transactions)
    → IsResolved source db (resolve_group source db).0
unfolding resolve_group
resolve_group-IsResolved source db f u n =
    let rows = group_rows source db.filings db.transactions in
    rw (few_lem (length rows) n) (
      apply_ends-IsResolved source db (sorted filed_le rows) f u
        (ground (arith, length-sorted filed_le rows))
        (length-sorted filed_le rows ∙ group_rows-size source db.filings db.transactions f)
        (sorted-Ascending filed_le filed_le-total rows)
        (sorted-All filed_le (IsRow source db.filings db.transactions) rows
          (group_rows-IsRow source db.filings db.transactions))
        (Perm.symm (sorted-perm filed_le rows)))
