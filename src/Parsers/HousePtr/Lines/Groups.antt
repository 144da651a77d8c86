-- ===== src/Parsers/HousePtr/Lines/Groups.antt =====
-- Grouping loses no word, and its lines are lines.
use mathlib.Core.List.{flatten, Perm}
use mathlib.Core.List.Perm
use evnt_trden_public.Base.{
  ℤ, pos, ◌+ℤ◌, ltb_ℤ, leb_ℤ, abs, ◌-ℤ◌, ◌⊎◌, All-map, ◌≡◌, true, false, List, [], ◌∷◌, ◌++◌,
  append_assoc, All, All-append, Bool-cases, inl, inr, arith,
}
use evnt_trden_public.Base.Sort.{
  sorted, sorted-perm, sorted-All, sorted-Ascending, Ascending, below_all, tail-Ascending,
}
use evnt_trden_public.Parsers.HousePtr.{Word}
use evnt_trden_public.Parsers.HousePtr.Lines.{
  x0_le, reading_le, near, split_lines, lines_of, group_lines,
}

flatten-split_lines :
    (top : ℤ) (line words : List Word) → Perm (flatten (split_lines top line words)) (line ++ words)
unfolding split_lines flatten
flatten-split_lines top line [] = Perm.append_right [] (sorted-perm x0_le line)
flatten-split_lines top line (w ∷ words) = elim (Bool-cases (near top w)) [
  | inl e ↦
      rw e
        (rw (append_assoc line (w ∷ []) words) at (flatten-split_lines top (line ++ w ∷ []) words))
  | inr e ↦ rw e (Perm.append (sorted-perm x0_le line) (flatten-split_lines w.top (w ∷ []) words))
]

flatten-lines_of : (words : List Word) → Perm (flatten (lines_of words)) words
unfolding lines_of flatten
flatten-lines_of [] = Perm.refl []
flatten-lines_of (w ∷ words) = flatten-split_lines w.top (w ∷ []) words

-- Every word of the page stands on some line, as often as on the page.
pub flatten-group_lines : (words : List Word) → Perm (flatten (group_lines words)) words
unfolding group_lines
flatten-group_lines words =
    Perm.trans (flatten-lines_of (sorted reading_le words)) (sorted-perm reading_le words)

module _ {κ} (P : Word → Type κ) where
  split_lines-All :
      (top : ℤ) (line words : List Word)
      → All P line
      → All P words
      → All (All P) (split_lines top line words)
  unfolding split_lines
  split_lines-All top line [] h k = (sorted-All x0_le P line h, tt)
  split_lines-All top line (w ∷ words) h (k, ks) = elim (Bool-cases (near top w)) [
    | inl e ↦
        rw e (split_lines-All top (line ++ w ∷ []) words (All-append P line (w ∷ []) h (k, tt)) ks)
    | inr e ↦ rw e (sorted-All x0_le P line h, split_lines-All w.top (w ∷ []) words (k, tt) ks)
  ]

  lines_of-All : (words : List Word) → All P words → All (All P) (lines_of words)
  unfolding lines_of
  lines_of-All [] h = tt
  lines_of-All (w ∷ words) (h, hs) = split_lines-All w.top (w ∷ []) words (h, tt) hs

  -- What holds of the words of a page holds of the words of its lines.
  pub group_lines-All : (words : List Word) → All P words → All (All P) (group_lines words)
  unfolding group_lines
  group_lines-All words h = lines_of-All (sorted reading_le words) (sorted-All reading_le P words h)

-- `v` is higher on the page than `w`, or as high and not to its right.
abbrev pub IsReadFirst : Word → Word → Type 0
IsReadFirst v w =
    (ltb_ℤ v.top w.top ≡ true) ⊎ ((leb_ℤ v.top w.top ≡ true) × (leb_ℤ v.x0 w.x0 ≡ true))

-- `w` stands more than three points, of a thousand units each, below `v`.
abbrev pub IsFarBelow : Word → Word → Type 0
IsFarBelow v w = ltb_ℤ (v.top +ℤ pos 3000) w.top ≡ true

-- The words of a line are in order from left to right; the first of them in reading order is no more
-- than three points higher than any of them.
pub record IsLine (lead : Word) (line : List Word) : Type 0 where
  pub ordered : Ascending x0_le line
  pub others : List Word
  pub same_words : Perm line (lead ∷ others)
  pub first : All (IsReadFirst lead) others
  pub close : All (λ w. leb_ℤ w.top (lead.top +ℤ pos 3000) ≡ true) others

-- Each group is a line, and all words of the later groups are far below its first word.
abbrev pub AreLines : List (List Word) → Type 0
AreLines [] = Unit
AreLines (line ∷ lines) =
    ((lead : Word) × IsLine lead line × All (All (IsFarBelow lead)) lines) × AreLines lines

x0_le_total : (a b : Word) → x0_le a b ≡ false → x0_le b a ≡ true
unfolding x0_le
x0_le_total a b h = ground arith

reading_le-total : (a b : Word) → reading_le a b ≡ false → reading_le b a ≡ true
unfolding reading_le
reading_le-total a b h = ground arith

reading_le_trans :
    (a b c : Word) → reading_le a b ≡ true → reading_le b c ≡ true → reading_le a c ≡ true
unfolding reading_le
reading_le_trans a b c h k = ground arith

reading_le-IsReadFirst : (v w : Word) → reading_le v w ≡ true → IsReadFirst v w
unfolding reading_le
reading_le-IsReadFirst v w h = elim (Bool-cases (ltb_ℤ v.top w.top)) [
  | inl e ↦ inl e
  | inr e ↦ inr (ground arith, ground arith)
]

reading_le-IsFarBelow :
    (lead w : Word) → reading_le lead w ≡ true → near lead.top w ≡ false → IsFarBelow lead w
unfolding reading_le near abs ◌-ℤ◌ ◌+ℤ◌
reading_le-IsFarBelow lead w h k = ground arith

close_below :
    (lead w : Word)
    → reading_le lead w ≡ true
    → near lead.top w ≡ true
    → leb_ℤ w.top (lead.top +ℤ pos 3000) ≡ true
unfolding reading_le near abs ◌-ℤ◌ ◌+ℤ◌
close_below lead w h k = ground arith

IsFarBelow-later : (lead w v : Word) → IsFarBelow lead w → reading_le w v ≡ true → IsFarBelow lead v
unfolding reading_le ◌+ℤ◌
IsFarBelow-later lead w v h k = ground arith

-- A word that is read after the line's first one and near it.
abbrev IsOn : Word → Word → Type 0
IsOn lead w = (reading_le lead w ≡ true) × (near lead.top w ≡ true)

sorted-IsLine :
    (lead : Word) (others : List Word)
    → All (IsOn lead) others
    → IsLine lead (sorted x0_le (lead ∷ others))
sorted-IsLine lead others h = record {
  ordered = sorted-Ascending x0_le x0_le_total (lead ∷ others);
  others = others;
  same_words = sorted-perm x0_le (lead ∷ others);
  first = All-map _ _ (λ w k. reading_le-IsReadFirst lead w k.0) others h;
  close = All-map _ _ (λ w k. close_below lead w k.0 k.1) others h;
}

-- The line that is open, and behind it the words that are not read yet, in order.
split_lines-AreLines :
    (lead : Word) (others words : List Word)
    → All (IsOn lead) others
    → Ascending reading_le (lead ∷ words)
    → Ascending reading_le words
    → AreLines (split_lines lead.top (lead ∷ others) words)
unfolding split_lines
split_lines-AreLines lead others [] h a b = ((lead, sorted-IsLine lead others h, tt), tt)
split_lines-AreLines lead others (w ∷ words) h a b =
    let after = below_all reading_le reading_le_trans lead (w ∷ words) a in
    let later = tail-Ascending reading_le reading_le_trans w words b in
    elim (Bool-cases (near lead.top w)) [
      | inl e ↦ rw e (
          split_lines-AreLines lead (others ++ w ∷ []) words
            (All-append (IsOn lead) others (w ∷ []) h ((after.0, e), tt))
            (ascending_onto lead words after.1 later) later)
      | inr e ↦
          let far = reading_le-IsFarBelow lead w after.0 e in
          rw e (
            (
              lead,
              sorted-IsLine lead others h,
              split_lines-All (IsFarBelow lead) w.top (w ∷ []) words (far, tt)
                  (All-map _ _ (λ v k. IsFarBelow-later lead w v far k) words
                    (below_all reading_le reading_le_trans w words b)),
            ),
            split_lines-AreLines w [] words tt b later,
          )
    ]
  where
    ascending_onto :
        (v : Word) (ws : List Word)
        → All (λ u. reading_le v u ≡ true) ws
        → Ascending reading_le ws
        → Ascending reading_le (v ∷ ws)
    ascending_onto v [] h k = tt
    ascending_onto v (u ∷ ws) h k = (h.0, k)

lines_of-AreLines :
    (ordered : List Word) → Ascending reading_le ordered → AreLines (lines_of ordered)
unfolding lines_of
lines_of-AreLines [] a = tt
lines_of-AreLines (w ∷ rest) a =
    split_lines-AreLines w [] rest tt a (tail-Ascending reading_le reading_le_trans w rest a)

-- Each group of words that `group_lines` returns is a line: its words are in order from left to right,
-- and all on it but the first one in reading order come after that one and at most three points lower;
-- the words of all later groups stand more than three points lower than it.
pub group_lines-AreLines : (words : List Word) → AreLines (group_lines words)
unfolding group_lines
group_lines-AreLines words =
    lines_of-AreLines (sorted reading_le words) (sorted-Ascending reading_le reading_le-total words)
