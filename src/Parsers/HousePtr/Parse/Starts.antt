-- ===== src/Parsers/HousePtr/Parse/Starts.antt =====
-- The lines of a report that start a transaction.
use evnt_trden_public.Base.{
  not, ◌&&◌, has_text, codes, join, lower, ℕ, ◌+◌, ◌≡◌, refl, Bool, true, false, List, [], ◌∷◌,
  if◌then◌else◌, arith,
}
use evnt_trden_public.Parsers.HousePtr.{Word, ColumnBounds}
use evnt_trden_public.Parsers.HousePtr.Lines.{group_lines}
use evnt_trden_public.Parsers.HousePtr.Parse.{
  Kind, footer, starts, kind_of, is_header_line, line_text, line_starts_transaction,
}

unfoldable pub is_start : Kind → ℕ
is_start starts = 1
is_start _ = 0

unfoldable pub is_footer : Kind → Bool
is_footer footer = true
is_footer _ = false

-- The footer of a page, which is no header of its table.
unfoldable pub ends_table : List Word → Bool
ends_table line =
    not (is_header_line (line_text line))
    && has_text (codes "For the complete list of asset type abbreviations") (line_text line)

unfoldable pub starts_row : ColumnBounds → List Word → Bool
starts_row bounds line =
    not (is_header_line (line_text line)) && line_starts_transaction bounds line

-- The lines of a page that start a transaction, above its footer.
unfoldable pub page_starts : ColumnBounds → List (List Word) → ℕ
unfolding ends_table starts_row
page_starts bounds [] = 0
page_starts bounds (line ∷ lines) =
    let rest = page_starts bounds lines in
    if ends_table line then 0 else (if starts_row bounds line then 1 else 0) + rest

unfoldable pub report_starts : ColumnBounds → List (List Word) → ℕ
unfolding page_starts
report_starts bounds [] = 0
report_starts bounds (words ∷ pages) =
    page_starts bounds (group_lines words) + report_starts bounds pages

-- The lines that start a transaction, by the kinds of the loop's body.
unfoldable pub kind_starts : ColumnBounds → Bool → List (List Word) → ℕ
unfolding is_start is_footer
kind_starts bounds past [] = 0
kind_starts bounds past (line ∷ lines) =
    let k = kind_of bounds past line in
    is_start k + kind_starts bounds (if is_footer k then true else past) lines

kind_of-below : (bounds : ColumnBounds) (line : List Word) → is_start (kind_of bounds true line) ≡ 0
unfolding kind_of is_start
kind_of-below bounds [] = refl
kind_of-below bounds (w ∷ line) = ground arith

kind_starts-below :
    (bounds : ColumnBounds) (lines : List (List Word)) → kind_starts bounds true lines ≡ 0
unfolding kind_starts is_start is_footer
kind_starts-below bounds [] = refl
kind_starts-below bounds (line ∷ lines) =
    ground (arith, kind_of-below bounds line, kind_starts-below bounds lines)

kind_of-above :
    (bounds : ColumnBounds) (line : List Word)
    → (is_footer (kind_of bounds false line) ≡ ends_table line)
      × (is_start (kind_of bounds false line)
          ≡ (if ends_table line then 0 else if starts_row bounds line then 1 else 0))
unfolding kind_of is_start is_footer ends_table starts_row line_text is_header_line has_text
    line_starts_transaction join lower
kind_of-above bounds [] = (refl, refl)
kind_of-above bounds (w ∷ line) = (ground arith, ground arith)

pub kind_starts-above :
    (bounds : ColumnBounds) (lines : List (List Word))
    → kind_starts bounds false lines ≡ page_starts bounds lines
unfolding kind_starts page_starts
kind_starts-above bounds [] = refl
kind_starts-above bounds (line ∷ lines) = ground (
  arith,
  kind_of-above bounds line,
  kind_starts-below bounds lines,
  kind_starts-above bounds lines,
)
