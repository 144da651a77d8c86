-- ===== src/Parsers/HouseFd/Section.antt =====
-- The holdings of a report come from its Schedule A alone.
use evnt_trden_public.Base.{
  ◌≡◌, refl, sym, ap, ◌∙◌, Bool, true, false, not, Option, none, some, Option-cases, inl, inr, List,
  [], ◌∷◌, ◌++◌, All, Text, codes, text_eq, arith,
}
use evnt_trden_public.Parsers.HousePtr.{Word}
use evnt_trden_public.Parsers.HouseFd.{
  State, start, flush, Kind, heading, outside, act, kind_of, letter_kind, schedule_letter,
  ends_schedule, parse_lines, is_a, report_lines, parse_schedule_a, Zones, Columns, add_line,
  open_row, continue_row, header_kind, header_columns, header, passed_over, annotation, content,
  zones_of, row_kind,
}

unfoldable pub is_other : Option Text → Bool
is_other none = false
is_other (some letter) = not (text_eq letter (codes "a"))

-- The line is no heading of Schedule A.
unfoldable pub NotA : List Word → Type 0
NotA line = is_a (schedule_letter line) ≡ false

-- The line is no heading of another schedule.
unfoldable pub NotOther : List Word → Type 0
NotOther line = is_other (schedule_letter line) ≡ false

unfoldable pub IsA : List Word → Type 0
IsA line = is_a (schedule_letter line) ≡ true

unfoldable pub IsOther : List Word → Type 0
IsOther line = is_other (schedule_letter line) ≡ true

add_line-in_a : (z : Zones) (s : State) → (add_line z s).in_a ≡ s.in_a
unfolding add_line open_row flush continue_row
add_line-in_a z s = elim (Option-cases s.current) [
  | inl e ↦ ground (arith, e)
  | inr (r, e) ↦ ground (arith, e)
]

is_heading : Kind → Bool
is_heading (heading letter) = true
is_heading _ = false

is_heading-header_kind :
    (found cols : Option Columns) (line : List Word)
    → is_heading (header_kind found cols line) ≡ false
unfolding is_heading header_kind row_kind
is_heading-header_kind (some c) cols line = refl
is_heading-header_kind none none line = refl
is_heading-header_kind none (some c) line = ground arith

-- No line but a heading begins or ends Schedule A.
act-in_a :
    (line : List Word) (s : State) (k : Kind)
    → is_heading k ≡ false
    → (ends_schedule s.in_a k ≡ false) × ((act line s k).in_a ≡ s.in_a)
unfolding act is_heading ends_schedule
act-in_a line s (heading letter) h = absurd cc
act-in_a line s outside h = (refl, refl)
act-in_a line s (header cols) h = (refl, refl)
act-in_a line s passed_over h = (refl, refl)
act-in_a line s annotation h = (refl, refl)
act-in_a line s (content cols) h = (refl, add_line-in_a (zones_of cols line) s)

unread :
    (line : List Word) (letter : Option Text)
    → is_a letter ≡ false
    → act line start (letter_kind letter false none line) ≡ start
unfolding act letter_kind is_a
unread line none h = refl
unread line (some letter) h = ap (λ b. record start { in_a = b }) h

going_on :
    (line : List Word) (letter : Option Text) (s : State)
    → is_other letter ≡ false
    → s.in_a ≡ true
    → (ends_schedule s.in_a (letter_kind letter s.in_a s.cols line) ≡ false)
      × ((act line s (letter_kind letter s.in_a s.cols line)).in_a ≡ true)
unfolding act letter_kind is_other ends_schedule
going_on line none s h a =
    let k = header_kind (header_columns line) s.cols line in
    let calm = act-in_a line s k (is_heading-header_kind (header_columns line) s.cols line) in
    ground (arith, calm.0, calm.1)
going_on line (some letter) s h a = (ground arith, ground arith)

ending :
    (line : List Word) (letter : Option Text) (s : State)
    → is_other letter ≡ true
    → s.in_a ≡ true
    → ends_schedule s.in_a (letter_kind letter s.in_a s.cols line) ≡ true
unfolding letter_kind is_other ends_schedule
ending line none s h a = absurd cc
ending line (some letter) s h a = ground arith

-- Before Schedule A nothing is read.
before_lem :
    (before rest : List (List Word))
    → All NotA before
    → parse_lines (before ++ rest) start ≡ parse_lines rest start
unfolding parse_lines NotA kind_of
before_lem [] rest h = refl
before_lem (line ∷ before) rest h =
    rw (unread line (schedule_letter line) h.0) (ground (arith, before_lem before rest h.1))

after_lem :
    (lines after : List (List Word)) (b : List Word) (s : State)
    → All NotOther lines
    → is_other (schedule_letter b) ≡ true
    → s.in_a ≡ true
    → parse_lines (lines ++ b ∷ after) s ≡ parse_lines lines s
unfolding parse_lines NotOther kind_of
after_lem [] after b s h e a = rw (ending b (schedule_letter b) s e a) refl
after_lem (line ∷ lines) after b s h e a =
    let (goes, stays) = going_on line (schedule_letter line) s h.0 a in
    rw goes (
      after_lem lines after b (act line s (letter_kind (schedule_letter line) s.in_a s.cols line))
        h.1 e stays)

begin_lem :
    (line : List Word) (rest : List (List Word))
    → is_a (schedule_letter line) ≡ true
    → parse_lines (line ∷ rest) start ≡ parse_lines rest (record start { in_a = true })
unfolding parse_lines kind_of letter_kind is_a act ends_schedule
begin_lem line rest h = elim (Option-cases (schedule_letter line)) [
  | inl e ↦ absurd (ground (arith, e))
  | inr (letter, e) ↦ rw e (ap (λ b. parse_lines rest (record start { in_a = b })) (rw e at h))
]

-- The holdings of a report are those of the lines from the first heading of Schedule A up to the next
-- heading of another schedule: nothing before or after them changes a holding.
pub parse_schedule_a-section :
    (pages : List (List Word)) (before section after : List (List Word)) (a b : List Word)
    → report_lines pages ≡ before ++ a ∷ (section ++ b ∷ after)
    → All NotA before
    → IsA a
    → All NotOther section
    → IsOther b
    → parse_schedule_a pages ≡ parse_lines (a ∷ section) start
unfolding parse_schedule_a IsA IsOther
parse_schedule_a-section pages before section after a b lines none_before begins within ends =
    ap (λ ls. parse_lines ls start) lines
    ∙ before_lem before (a ∷ (section ++ b ∷ after)) none_before
    ∙ begin_lem a (section ++ b ∷ after) begins
    ∙ after_lem section after b (record start { in_a = true }) within ends refl
    ∙ sym (begin_lem a section begins)
