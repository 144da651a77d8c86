-- ===== src/Parsers/SenatePtr.antt =====
-- src/congress_collector/parsers/senate_ptr.py: the table of an electronic Senate report. The texts of
-- the table's cells, which selectolax reads, are an argument.
pub mod Rows
pub mod Description
use evnt_trden_public.Base.{
  ℕ, Bool, true, false, ◌+◌, ◌-◌, ◌*◌, ◌&&◌, ◌||◌, Option, none, some, ◌>>=◌, List, [], ◌∷◌, ◌==◌,
  leb, if◌then◌else◌, Text, codes, is_digit, is_space, is_empty, lower, strip, starts_with, text_eq,
  split_once, dict_get,
}
use evnt_trden_public.Base.Calendar.{Date, from_iso, is_date}
use evnt_trden_public.Base.Float.{Float}
use evnt_trden_public.Base.Regex.{
  Regex, Cursor, rep, one, either, group, ◌⊙◌, is_code, star, plus, word_any_case, find_match,
  group_of,
}
use evnt_trden_public.Parsers.Amounts.{parse_amount_range, to_number}

abbrev pub owner_codes : List (Text × Text)
owner_codes =
    (codes "self", codes "self")
    ∷ (codes "spouse", codes "spouse")
    ∷ (codes "joint", codes "joint")
    ∷ (codes "dependent child", codes "child")
    ∷ []

abbrev pub tx_type_codes : List (Text × Text)
tx_type_codes =
    (codes "purchase", codes "purchase")
    ∷ (codes "sale (full)", codes "sale_full")
    ∷ (codes "sale (partial)", codes "sale_partial")
    ∷ (codes "exchange", codes "exchange")
    ∷ []

abbrev digits : ℕ → Regex
digits n = rep is_digit n (some n)

-- Groups 1, 2 and 3 are `type`, `strike` and `expiry`; letters in any case.
abbrev option_re : Regex
option_re =
    word_any_case (codes "option type:")
    ⊙ star is_space
    ⊙ group 1 (either (word_any_case (codes "call")) (word_any_case (codes "put")))
    ⊙ star is_space
    ⊙ word_any_case (codes "strike price:")
    ⊙ star is_space
    ⊙ one (is_code b'$')
    ⊙ group 2 (plus (λ c. is_digit c || c == b',' || c == b'.'))
    ⊙ star is_space
    ⊙ word_any_case (codes "expires:")
    ⊙ star is_space
    ⊙ group 3 (digits 4 ⊙ one (is_code b'-') ⊙ digits 2 ⊙ one (is_code b'-') ⊙ digits 2)

pub record ParsedTransaction : Type 0 where
  pub row_index : ℕ
  pub owner : Option Text
  pub asset_description_raw : Text
  pub ticker : Option Text
  pub asset_type : Option Text
  pub option_type : Option Text
  pub strike : Option Float
  pub expiry : Option Date
  pub tx_type : Option Text
  pub tx_date : Option Date
  pub amount_min : Option Float
  pub amount_max : Option Float

pub record OptionDetails : Type 0 where
  pub option_type : Option Text
  pub strike : Option Float
  pub expiry : Option Date

option_details : Option Cursor → Option OptionDetails
option_details none = some (record { option_type = none; strike = none; expiry = none })
option_details (some m) = do
  expiry ← from_iso (group_of 3 m)
  some (record {
    option_type = some (lower (group_of 1 m));
    strike = to_number (group_of 2 m);
    expiry = some expiry;
  })

-- `none` is the `ValueError` of an impossible date.
unfoldable pub extract_option_details : Text → Option OptionDetails
unfolding option_details
extract_option_details asset_name = option_details (find_match option_re asset_name)

-- `s[:s.find(t)]`, and all of `s` where `t` is not in it
unfoldable pub before_text : Text → Text → Text
before_text t [] = []
before_text t (c ∷ s) = let rest = before_text t s in if starts_with (c ∷ s) t then [] else c ∷ rest

unfoldable pub strip_option_details : Text → Text
unfolding before_text
strip_option_details asset_name = strip (before_text (codes "Option Type:") asset_name)

dash_to_none : Text → Option Text
dash_to_none value =
    if is_empty value then none else if text_eq value (codes "--") then none else some value

unfoldable pub clean_dash : Text → Option Text
unfolding dash_to_none
clean_dash raw = dash_to_none (strip raw)

-- `%m`: one or two digits. `%d` takes a space for the first of two digits as well.
month_number : Text → Option ℕ
month_number (a ∷ []) = if is_digit a then some (a - b'0') else none
month_number (a ∷ b ∷ []) =
    if is_digit a && is_digit b then some ((a - b'0') * 10 + (b - b'0')) else none
month_number _ = none

day_number : Text → Option ℕ
unfolding month_number
day_number (a ∷ b ∷ []) =
    if a == b' ' && is_digit b then some (b - b'0') else month_number (a ∷ b ∷ [])
day_number t = month_number t

-- `%Y`: four digits.
year_number : Text → Option ℕ
unfolding month_number
year_number (a ∷ b ∷ c ∷ d ∷ []) = do
  century ← month_number (a ∷ b ∷ [])
  rest ← month_number (c ∷ d ∷ [])
  some (century * 100 + rest)
year_number _ = none

date_of : ℕ → ℕ → ℕ → Date
date_of y m d = record { year = y; month = m; day = d }

real_date : ℕ → ℕ → ℕ → Option Date
unfolding date_of
real_date y m d = if is_date (date_of y m d) then some (date_of y m d) else none

-- `datetime.strptime(value, "%m/%d/%Y").date()`; `none` is the `ValueError`.
unfoldable pub read_us_date : Text → Option Date
unfolding month_number day_number year_number real_date
read_us_date value = do
  (month, rest) ← split_once b'/' value
  (day, year) ← split_once b'/' rest
  m ← month_number month
  d ← day_number day
  y ← year_number year
  real_date y m d

date_or_none : Text → Option (Option Date)
date_or_none value =
    if is_empty value then some none else (do d ← read_us_date value; some (some d))

unfoldable pub parse_date : Text → Option (Option Date)
unfolding date_or_none
parse_date raw = date_or_none (strip raw)

-- The cells of a row that are read.
pub record Cells : Type 0 where
  pub tx_date_raw : Text
  pub owner_raw : Text
  pub ticker_raw : Text
  pub asset_name_raw : Text
  pub asset_type_raw : Text
  pub tx_type_raw : Text
  pub amount_raw : Text

-- A row of fewer than nine cells is passed over.
unfoldable pub cells_of : List Text → Option Cells
cells_of (number ∷ tx_date ∷ owner ∷ ticker ∷ name ∷ kind ∷ tx_type ∷ amount ∷ comment ∷ more) =
    some (record {
      tx_date_raw = tx_date;
      owner_raw = owner;
      ticker_raw = ticker;
      asset_name_raw = name;
      asset_type_raw = kind;
      tx_type_raw = tx_type;
      amount_raw = amount;
    })
cells_of _ = none

-- One transaction; `none` is a `ValueError`.
unfoldable pub read_cells : ℕ → Cells → Option ParsedTransaction
unfolding dict_get
read_cells row_index c = do
  details ← extract_option_details c.asset_name_raw
  tx_date ← parse_date c.tx_date_raw
  let amounts = parse_amount_range c.amount_raw
  some (record {
    row_index = row_index;
    owner = dict_get (lower (strip c.owner_raw)) owner_codes;
    asset_description_raw = strip_option_details c.asset_name_raw;
    ticker = clean_dash c.ticker_raw;
    asset_type = clean_dash c.asset_type_raw;
    option_type = details.option_type;
    strike = details.strike;
    expiry = details.expiry;
    tx_type = dict_get (lower (strip c.tx_type_raw)) tx_type_codes;
    tx_date = tx_date;
    amount_min = amounts.0;
    amount_max = amounts.1;
  })

add_row : Option Cells → ℕ → Option (List ParsedTransaction) → Option (List ParsedTransaction)
add_row none i later = later
add_row (some c) i later = do t ← read_cells i c; ts ← later; some (t ∷ ts)

-- The rows from number `i` on.
unfoldable pub parse_rows : ℕ → List (List Text) → Option (List ParsedTransaction)
unfolding add_row
parse_rows i [] = some []
parse_rows i (row ∷ rows) = add_row (cells_of row) i (parse_rows (i + 1) rows)

parse_table : Option (List (List Text)) → Option (List ParsedTransaction)
parse_table none = some []
parse_table (some rows) = parse_rows 0 rows

-- `table_rows` gives the cells of the rows of the page's first table, if it has one.
unfoldable pub parse_ptr_html :
    (table_rows : Text → Option (List (List Text))) (html : Text) → Option (List ParsedTransaction)
unfolding parse_table
parse_ptr_html table_rows html = parse_table (table_rows html)
