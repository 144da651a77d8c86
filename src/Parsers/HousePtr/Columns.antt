-- ===== src/Parsers/HousePtr/Columns.antt =====
-- The header row, and the column boundaries that it fixes.
use evnt_trden_public.Base.{
  ℤ, pos, ◌+ℤ◌, ◌-ℤ◌, ltb_ℤ, Bool, ◌&&◌, Option, none, some, ◌>>=◌, value_or, is_some, List, [],
  ◌∷◌, first_that, if◌then◌else◌, Text, codes, text_eq, lower, dict_get,
}
use evnt_trden_public.Parsers.HousePtr.{Word, ColumnBounds, default_column_bounds, column_margin}
use evnt_trden_public.Parsers.HousePtr.Lines.{group_lines}

abbrev header_words : List (Text × Text)
header_words =
    (codes "id", codes "ID")
    ∷ (codes "owner", codes "Owner")
    ∷ (codes "asset", codes "Asset")
    ∷ (codes "transaction", codes "Transaction")
    ∷ (codes "date", codes "Date")
    ∷ (codes "notification", codes "Notification")
    ∷ (codes "amount", codes "Amount")
    ∷ (codes "cap.", codes "Cap.")
    ∷ []

-- Canonical spelling of a header word, or the text unchanged.
unfoldable pub header_word : Text → Text
unfolding dict_get lower
header_word text = value_or text (dict_get (lower text) header_words)

-- `positions.get(key)`: where two words have one spelling the last one counts.
later_or : Option ℤ → ℤ → Option ℤ
later_or none x = some x
later_or (some y) x = some y

unfoldable pub position : Text → List Word → Option ℤ
unfolding later_or
position key [] = none
position key (w ∷ line) =
    let rest = position key line in
    if text_eq (header_word w.text) key then later_or rest w.x0 else rest

-- The row's own "Date", between "Transaction" and "Notification".
tx_date_word : ℤ → ℤ → List Word → Option Word
tx_date_word transaction notification = first_that λ w.
    text_eq (header_word w.text) (codes "Date")
    && (ltb_ℤ transaction w.x0 && ltb_ℤ w.x0 notification)

-- Without a "Cap." column the amount zone has the width of the reference form.
amount_bound : ℤ → Option ℤ → ℤ
amount_bound amount none = amount +ℤ (pos 524000 -ℤ pos 445000)
amount_bound amount (some cap) = cap -ℤ column_margin

-- One line of the loop of `_find_column_bounds`: `none` is its `continue`.
unfoldable pub header_bounds : List Word → Option ColumnBounds
unfolding tx_date_word amount_bound
header_bounds line = do
  owner ← position (codes "Owner") line
  asset ← position (codes "Asset") line
  transaction ← position (codes "Transaction") line
  notification ← position (codes "Notification") line
  amount ← position (codes "Amount") line
  date ← tx_date_word transaction notification line
  some (record {
    id_max_x = pos 55000;
    owner_max_x = asset -ℤ column_margin;
    asset_max_x = transaction -ℤ column_margin;
    tx_type_max_x = date.x0 -ℤ column_margin;
    tx_date_max_x = notification -ℤ column_margin;
    notif_date_max_x = amount -ℤ column_margin;
    amount_max_x = amount_bound amount (position (codes "Cap.") line);
  })

first_bounds : List (List Word) → Option ColumnBounds
first_bounds [] = none
first_bounds (line ∷ lines) = elim (header_bounds line) [
  | some bounds ↦ some bounds
  | none ↦ first_bounds lines
]

unfoldable pub find_column_bounds : List (List Word) → Option ColumnBounds
unfolding first_bounds
find_column_bounds [] = none
find_column_bounds (words ∷ pages) = elim (first_bounds (group_lines words)) [
  | some bounds ↦ some bounds
  | none ↦ find_column_bounds pages
]

unfoldable pub detect_column_bounds : List (List Word) → ColumnBounds
detect_column_bounds pages = value_or default_column_bounds (find_column_bounds pages)

unfoldable pub is_electronic : List (List Word) → Bool
is_electronic pages = is_some (find_column_bounds pages)
