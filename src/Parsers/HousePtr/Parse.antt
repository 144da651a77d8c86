-- ===== src/Parsers/HousePtr/Parse.antt =====
-- `parse_ptr_transactions`: the loop over the pages and lines of one report.
pub mod Starts
pub mod Rows
pub mod Invariant
pub mod Contract
use evnt_trden_public.Base.{
  ℕ, ◌+◌, Bool, true, false, ◌&&◌, ◌||◌, Option, none, some, ◌>>=◌, is_some, map_option, List, [],
  ◌∷◌, ◌++◌, map, any, leb_ℤ, ltb_ℤ, if◌then◌else◌, Text, codes, text_eq, one_of, lower, upper,
  has_text, has_code, join, rstrip_code, dict_get,
}
use evnt_trden_public.Parsers.HousePtr.{
  Word, ColumnBounds, ParsedTransaction, annotation_labels, footer_marker,
}
use evnt_trden_public.Parsers.HousePtr.Lines.{group_lines}
use evnt_trden_public.Parsers.HousePtr.Columns.{detect_column_bounds}
use evnt_trden_public.Parsers.HousePtr.Patterns.{tx_type_re}
use evnt_trden_public.Parsers.HousePtr.Row.{
  OpenRecord, matches, from_line, extend, add_description_words, finalize,
}

unfoldable pub line_text : List Word → Text
line_text line = join (b' ' ∷ []) (map (λ w. w.text) line)

unfoldable pub is_header_line : Text → Bool
is_header_line text =
    let t = lower text in
    (has_text (codes "owner") t && has_text (codes "asset") t)
    || (has_text (codes "notification") t && has_text (codes "amount") t)
    || (has_text (codes "cap.") t && has_text (codes "gains") t)
    || has_text (codes "$200?") t

abbrev nul_labels : List (Text × Text)
nul_labels =
    (codes "F", codes "filing")
    ∷ (codes "S", codes "subholding")
    ∷ (codes "D", codes "description")
    ∷ (codes "L", codes "location")
    ∷ []

first_code : Text → Text
first_code [] = []
first_code (c ∷ t) = c ∷ []

-- The annotation label that the first word of a line stands for, in either style.
unfoldable pub annotation_label : Text → Option Text
unfolding first_code dict_get
annotation_label word =
    let stripped = lower (rstrip_code b':' word) in
    if has_code 0 word
    then dict_get (upper (first_code word)) nul_labels
    else if one_of annotation_labels stripped
    then some stripped
    else none

unfoldable pub is_start_word : ColumnBounds → Word → Bool
is_start_word bounds w =
    leb_ℤ bounds.asset_max_x w.x0 && (ltb_ℤ w.x0 bounds.tx_type_max_x && matches tx_type_re w.text)

unfoldable pub line_starts_transaction : ColumnBounds → List Word → Bool
line_starts_transaction bounds line = any (is_start_word bounds) line

pub record State : Type 0 where
  pub results : List ParsedTransaction
  pub current : Option OpenRecord
  pub in_annotation_block : Bool
  pub describing : Bool
  pub row_index : ℕ
  pub past_footer : Bool

abbrev pub start : State
start = record {
  results = [];
  current = none;
  in_annotation_block = false;
  describing = false;
  row_index = 0;
  past_footer = false;
}

-- The open transaction is finished and takes the next row index.
unfoldable pub flush : State → Option State
flush s = elim s.current [
  | none ↦ some s
  | some r ↦ do
    t ← finalize r s.row_index
    some (record s { results = s.results ++ t ∷ []; current = none; row_index = s.row_index + 1 })
]

update_current : (OpenRecord → OpenRecord) → State → State
update_current f s = record s { current = map_option f s.current }

-- A line behind the header, footer and start tests, with the label of its first word.
unfoldable pub other_line : ColumnBounds → List Word → Option Text → State → State
unfolding update_current
other_line bounds line (some label) s =
    let t = record s {
      in_annotation_block = true;
      describing = text_eq label (codes "description");
    } in
    if text_eq label (codes "description")
    then update_current (λ r. add_description_words r line) t
    else t
other_line bounds line none s =
    if s.describing && is_some s.current
    then update_current (λ r. add_description_words r line) s
    else if s.in_annotation_block
    then s
    else update_current (λ r. extend bounds r line) s

unfoldable pub open_row : ColumnBounds → List Word → State → State
open_row bounds line s = record s {
  current = some (from_line bounds line);
  in_annotation_block = false;
  describing = false;
}

-- What a line is to the loop, by the tests that stand above its `continue`s.
pub data Kind : Type 0 where
  blank header footer skipped starts other : Kind

unfoldable pub kind_of : ColumnBounds → Bool → List Word → Kind
kind_of bounds past [] = blank
kind_of bounds past (w ∷ line) =
    let text = line_text (w ∷ line) in
    if is_header_line text
    then header
    else if has_text footer_marker text
    then footer
    else if past
    then skipped
    else if line_starts_transaction bounds (w ∷ line)
    then starts
    else other

first_text : List Word → Text
first_text [] = []
first_text (w ∷ line) = w.text

-- What the loop's body does on each kind of line; `none` is an exception.
unfoldable pub act : ColumnBounds → List Word → State → Kind → Option State
unfolding first_text
act bounds line s blank = some (record s { in_annotation_block = false; describing = false })
act bounds line s header = some s
act bounds line s footer = some (record s { past_footer = true })
act bounds line s skipped = some s
act bounds line s starts = do t ← flush s; some (open_row bounds line t)
act bounds line s other = some (other_line bounds line (annotation_label (first_text line)) s)

unfoldable pub step : ColumnBounds → State → List Word → Option State
unfolding act
step bounds s line = act bounds line s (kind_of bounds s.past_footer line)

unfoldable pub run_lines : ColumnBounds → List (List Word) → State → Option State
unfolding step
run_lines bounds [] s = some s
run_lines bounds (line ∷ lines) s = step bounds s line >>= λ t. run_lines bounds lines t

unfoldable pub run_pages : ColumnBounds → List (List Word) → State → Option State
unfolding run_lines
run_pages bounds [] s = some s
run_pages bounds (words ∷ pages) s =
    run_lines bounds (group_lines words) (record s { past_footer = false }) >>= λ t.
    run_pages bounds pages t

-- `none` is an exception that a row raised.
unfoldable pub parse_ptr_transactions : List (List Word) → Option (List ParsedTransaction)
unfolding run_pages
parse_ptr_transactions pages = do
  s ← run_pages (detect_column_bounds pages) pages start
  t ← flush s
  some t.results
