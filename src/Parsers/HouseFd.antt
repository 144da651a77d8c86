-- ===== src/Parsers/HouseFd.antt =====
-- src/congress_collector/parsers/house_fd.py: Schedule A of House annual reports. Coordinates are those
-- of Parsers/HousePtr.
pub mod Row
pub mod Holdings
pub mod Section
use evnt_trden_public.Base.{
  ℕ, ◌+◌, ◌-◌, ◌*◌, or_else, ℤ, ◌-ℤ◌, leb_ℤ, ltb_ℤ, Bool, true, false, ◌&&◌, ◌||◌, not, Option,
  none, some, ◌>>=◌, List, [], ◌∷◌, ◌++◌, map, keep, any, length, if◌then◌else◌, Text, codes,
  text_eq, one_of, lower, upper, join, has_code, starts_with, ends_with, rstrip_code, is_empty,
  is_digit, is_some, dict_get, ◌==◌,
}
use evnt_trden_public.Base.Regex.{
  Regex, Class, one, either, edge, ends, plus, ◌⊙◌, is_code, word_any_case, match_start,
}
use evnt_trden_public.Parsers.HousePtr.{Word, column_margin, owner_codes}
use evnt_trden_public.Parsers.HousePtr.Lines.{group_lines}
use evnt_trden_public.Parsers.HousePtr.Parse.{line_text}
use evnt_trden_public.Parsers.HouseFd.Row.{FdRow, empty_row, value_open, ParsedHolding, finalize}

pub record Columns : Type 0 where
  pub owner_x : ℤ
  pub value_x : ℤ
  pub income_type_x : ℤ
  pub income_x : ℤ
  pub tx_x : ℤ

-- `^schedule$`, in any case
abbrev schedule_re : Regex
schedule_re = word_any_case (codes "schedule") ⊙ ends

-- `^(description|location|subholding|comments|filing)\b`, in any case
abbrev annotation_re : Regex
annotation_re =
    either (word_any_case (codes "description")) (
      either (word_any_case (codes "location")) (
        either (word_any_case (codes "subholding"))
          (either (word_any_case (codes "comments")) (word_any_case (codes "filing")))))
    ⊙ edge

-- `^\$[\d,]+$`
abbrev range_start_re : Regex
range_start_re = one (is_code b'$') ⊙ plus (λ c. is_digit c || c == b',') ⊙ ends

all_nul : Text → Bool
all_nul [] = true
all_nul (c ∷ t) = c == 0 && all_nul t

-- "S" and then NUL bytes only, at least one.
nul_schedule : Text → Bool
unfolding all_nul
nul_schedule [] = false
nul_schedule (c ∷ []) = false
nul_schedule (c ∷ d ∷ t) = (c == b'S' || c == b's') && all_nul (d ∷ t)

unfoldable pub schedule_letter : List Word → Option Text
unfolding nul_schedule
schedule_letter [] = none
schedule_letter (w ∷ []) = none
schedule_letter (w ∷ v ∷ line) =
    if ends_with v.text (codes ":")
      && (is_some (match_start schedule_re w.text) || nul_schedule w.text)
    then some (lower (rstrip_code b':' v.text))
    else none

-- `pos[key]`: where the first word of that spelling stands.
unfoldable pub first_x : Text → List Word → Option ℤ
first_x key [] = none
first_x key (w ∷ line) =
    let rest = first_x key line in if text_eq (lower w.text) key then some w.x0 else rest

starts_asset : List Word → Bool
starts_asset [] = false
starts_asset (w ∷ line) = text_eq (lower w.text) (codes "asset")

-- The second of two words.
unfoldable pub second_x : Text → List Word → Option ℤ
unfolding first_x
second_x key [] = none
second_x key (w ∷ line) =
    let rest = second_x key line in if text_eq (lower w.text) key then first_x key line else rest

unfoldable pub columns_of : List Word → Option Columns
unfolding first_x second_x
columns_of line = do
  owner ← first_x (codes "owner") line
  value ← first_x (codes "value") line
  tx ← first_x (codes "tx.") line
  income_type ← first_x (codes "income") line
  income ← second_x (codes "income") line
  some (record {
    owner_x = owner -ℤ column_margin;
    value_x = value -ℤ column_margin;
    income_type_x = income_type -ℤ column_margin;
    income_x = income -ℤ column_margin;
    tx_x = tx -ℤ column_margin;
  })

-- `none` for a line that is not Schedule A's header row.
unfoldable pub header_columns : List Word → Option Columns
unfolding starts_asset columns_of
header_columns line = if starts_asset line then columns_of line else none

unfoldable pub is_electronic_fd : List (List Word) → Bool
is_electronic_fd pages =
    any (λ words. any (λ line. is_some (header_columns line)) (group_lines words)) pages

abbrev value_words : List Text
value_words = codes "none" ∷ codes "undetermined" ∷ codes "over" ∷ codes "spouse/dc" ∷ []

second_is_dash : List Word → Bool
second_is_dash [] = false
second_is_dash (w ∷ line) = text_eq w.text (codes "-")

-- Whether the words of the value column open a new value.
unfoldable pub starts_value : List Word → Bool
unfolding second_is_dash
starts_value [] = false
starts_value (w ∷ line) =
    one_of value_words (lower w.text)
    || (is_some (match_start range_start_re w.text) && second_is_dash line)

-- What a line is to the loop, by the tests that stand above its `continue`s.
pub data Kind : Type 0 where
  heading : Text → Kind
  outside : Kind
  header : Columns → Kind
  passed_over : Kind
  annotation : Kind
  content : Columns → Kind

first_text : List Word → Text
first_text [] = []
first_text (w ∷ line) = w.text

unfoldable pub is_footnote : Text → Bool
is_footnote text =
    starts_with (lower text) (codes "type(s)")
    || starts_with (lower text) (codes "http")
    || starts_with text (codes "*")

unfoldable pub is_annotation : Text → Bool
is_annotation text = has_code 0 text || is_some (match_start annotation_re text)

row_kind : Columns → List Word → Kind
unfolding first_text
row_kind cols line =
    if is_footnote (line_text line)
    then passed_over
    else if is_annotation (first_text line)
    then annotation
    else content cols

header_kind : Option Columns → Option Columns → List Word → Kind
unfolding row_kind
header_kind (some found) cols line = header found
header_kind none none line = passed_over
header_kind none (some cols) line = row_kind cols line

letter_kind : Option Text → Bool → Option Columns → List Word → Kind
unfolding header_kind
letter_kind (some letter) in_a cols line = heading letter
letter_kind none in_a cols line =
    if in_a then header_kind (header_columns line) cols line else outside

unfoldable pub kind_of : Bool → Option Columns → List Word → Kind
unfolding letter_kind
kind_of in_a cols line = letter_kind (schedule_letter line) in_a cols line

pub record State : Type 0 where
  pub holdings : List ParsedHolding
  pub cols : Option Columns
  pub in_a : Bool
  pub in_annotation : Bool
  pub current : Option FdRow

abbrev pub start : State
start = record { holdings = []; cols = none; in_a = false; in_annotation = false; current = none }

-- A row without asset and value is dropped; the others take the next index.
add_holding : Option FdRow → List ParsedHolding → List ParsedHolding
add_holding none holdings = holdings
add_holding (some r) holdings =
    if is_empty r.asset && is_empty r.value
    then holdings
    else holdings ++ finalize r (length holdings) ∷ []

unfoldable pub flush : State → State
unfolding add_holding
flush s = record s { holdings = add_holding s.current s.holdings; current = none }

-- The words of a line by column.
pub record Zones : Type 0 where
  pub asset : List Word
  pub owner : List Word
  pub value : List Word
  pub income_type : List Word
  pub income : List Word

between : ℤ → ℤ → List Word → List Word
between lo hi line = keep (λ w. leb_ℤ lo w.x0 && ltb_ℤ w.x0 hi) line

unfoldable pub zones_of : Columns → List Word → Zones
unfolding between
zones_of cols line = record {
  asset = keep (λ w. ltb_ℤ w.x0 cols.owner_x) line;
  owner = between cols.owner_x cols.value_x line;
  value = between cols.value_x cols.income_type_x line;
  income_type = between cols.income_type_x cols.income_x line;
  income = between cols.income_x cols.tx_x line;
}

unfoldable pub all_empty : Zones → Bool
all_empty z =
    is_empty z.asset
    && (is_empty z.owner && (is_empty z.value && (is_empty z.income_type && is_empty z.income)))

-- `owner[0].text.upper()`, if it is an owner code
unfoldable pub owner_code : List Word → Option Text
owner_code [] = none
owner_code (w ∷ words) =
    if is_some (dict_get (upper w.text) owner_codes) then some (upper w.text) else none

texts : List Word → List Text
texts = map (λ w. w.text)

new_owner : Option Text → Option Text → Option Text
new_owner none old = old
new_owner (some code) old = some code

unfoldable pub add_zones : Zones → FdRow → FdRow
unfolding new_owner texts
add_zones z r = record {
  asset = r.asset ++ texts z.asset;
  owner = new_owner (owner_code z.owner) r.owner;
  value = r.value ++ texts z.value;
  income_type = r.income_type ++ texts z.income_type;
  income = r.income ++ texts z.income;
}

-- A line without a new row in front goes to the row that is open, but for the rest of an annotation.
continue_row : Zones → Option FdRow → State → State
continue_row z none s = s
continue_row z (some r) s =
    if s.in_annotation then s else record s { current = some (add_zones z r) }

value_waits : Option FdRow → Bool
value_waits none = false
value_waits (some r) = value_open r

-- `new_row`
unfoldable pub opens_row : Zones → State → Bool
unfolding value_waits
opens_row z s =
    not (is_some s.current)
    || ((starts_value z.value && not (value_waits s.current))
        || (is_some (owner_code z.owner) && not s.in_annotation))

open_row : Zones → State → State
open_row z s = record (flush s) { current = some (add_zones z empty_row); in_annotation = false }

unfoldable pub add_line : Zones → State → State
unfolding continue_row open_row
add_line z s =
    if all_empty z then s else if opens_row z s then open_row z s else continue_row z s.current s

-- What the loop's body does on each kind of line, but for the heading that ends the loop.
unfoldable pub act : List Word → State → Kind → State
unfolding add_line
act line s (heading letter) = record s { in_a = text_eq letter (codes "a") }
act line s outside = s
act line s (header cols) = record s { cols = some cols }
act line s passed_over = s
act line s annotation = record s { in_annotation = true }
act line s (content cols) = add_line (zones_of cols line) s

-- `if in_a and letter != "a"`
unfoldable pub ends_schedule : Bool → Kind → Bool
ends_schedule in_a (heading letter) = in_a && not (text_eq letter (codes "a"))
ends_schedule in_a _ = false

unfoldable pub parse_lines : List (List Word) → State → List ParsedHolding
unfolding flush act ends_schedule
parse_lines [] s = (flush s).holdings
parse_lines (line ∷ lines) s =
    let kind = kind_of s.in_a s.cols line in
    let rest = parse_lines lines (act line s kind) in
    if ends_schedule s.in_a kind then (flush s).holdings else rest

unfoldable pub report_lines : List (List Word) → List (List Word)
report_lines [] = []
report_lines (words ∷ pages) = group_lines words ++ report_lines pages

unfoldable pub parse_schedule_a : List (List Word) → List ParsedHolding
unfolding parse_lines report_lines
parse_schedule_a pages = parse_lines (report_lines pages) start

unfoldable pub is_a : Option Text → Bool
is_a none = false
is_a (some letter) = text_eq letter (codes "a")

unfoldable pub has_schedule_a : List (List Word) → Bool
unfolding report_lines is_a
has_schedule_a pages = any (λ line. is_a (schedule_letter line)) (report_lines pages)

all_digits : Text → Bool
all_digits [] = true
all_digits (c ∷ t) = is_digit c && all_digits t

digits_value : ℕ → Text → ℕ
digits_value n [] = n
digits_value n (c ∷ t) = digits_value (n * 10 + (c - b'0')) t

-- "Filing Year: 2020"
unfoldable pub year_of_line : List Word → Option ℕ
unfolding all_digits digits_value
year_of_line (a ∷ b ∷ c ∷ line) =
    if text_eq (lower a.text) (codes "filing")
      && (text_eq (lower b.text) (codes "year:")
          && (not (is_empty c.text) && all_digits (lower c.text)))
    then some (digits_value 0 (lower c.text))
    else none
year_of_line _ = none

first_year : List (List Word) → Option ℕ
unfolding year_of_line
first_year [] = none
first_year (line ∷ lines) = or_else (year_of_line line) (first_year lines)

-- Of the first page only.
unfoldable pub report_year : List (List Word) → Option ℕ
unfolding first_year
report_year [] = none
report_year (words ∷ pages) = first_year (group_lines words)
