-- ===== src/Parsers/HousePtr/Lines.antt =====
-- `_group_lines`: the words of a page as visual lines, in reading order.
pub mod Groups
use evnt_trden_public.Base.{
  ℤ, ◌-ℤ◌, ltb_ℤ, leb_ℤ, abs, leb, Bool, ◌&&◌, ◌||◌, List, [], ◌∷◌, ◌++◌, if◌then◌else◌,
}
use evnt_trden_public.Base.Sort.{sorted}
use evnt_trden_public.Parsers.HousePtr.{Word, row_tolerance}

-- `(a.top, a.x0) <= (b.top, b.x0)`
unfoldable pub reading_le : Word → Word → Bool
reading_le a b = ltb_ℤ a.top b.top || (leb_ℤ a.top b.top && leb_ℤ a.x0 b.x0)

unfoldable pub x0_le : Word → Word → Bool
x0_le a b = leb_ℤ a.x0 b.x0

-- `abs(word.top - current_top) <= _ROW_TOLERANCE`
unfoldable pub near : ℤ → Word → Bool
unfolding abs ◌-ℤ◌
near current_top w = leb (abs (w.top -ℤ current_top)) row_tolerance

-- The loop over the ordered words, with the line that is open and the `top` of its first word.
unfoldable pub split_lines : ℤ → List Word → List Word → List (List Word)
split_lines current_top current_line [] = sorted x0_le current_line ∷ []
split_lines current_top current_line (word ∷ rest) =
    let same = split_lines current_top (current_line ++ word ∷ []) rest in
    let other = sorted x0_le current_line ∷ split_lines word.top (word ∷ []) rest in
    if near current_top word then same else other

lines_of : List Word → List (List Word)
unfolding split_lines
lines_of [] = []
lines_of (first ∷ rest) = split_lines first.top (first ∷ []) rest

unfoldable pub group_lines : List Word → List (List Word)
unfolding lines_of reading_le
group_lines words = lines_of (sorted reading_le words)
