-- ===== src/Parsers/HouseFd/Holdings.antt =====
-- What every report's holdings satisfy, and the rule by which it is shown.
use evnt_trden_public.Base.{
  ℕ, ◌≡◌, refl, true, ◌&&◌, Option, none, some, List, [], ◌∷◌, ◌++◌, map, All, All-append, length,
  length-append, range_from, is_empty, Text, codes, text_eq, one_of, Bool-cases, inl, inr, arith,
}
use mathlib.Core.List.{map-append}
use evnt_trden_public.Parsers.HousePtr.{Word}
use evnt_trden_public.Parsers.HousePtr.Parse.Rows.{range_from-suc}
use evnt_trden_public.Parsers.HouseFd.Row.{FdRow, ParsedHolding, finalize, holder}
use evnt_trden_public.Parsers.HouseFd.{
  State, start, flush, add_holding, Zones, continue_row, open_row, add_line, all_empty, opens_row,
  Kind, heading, outside, header, passed_over, annotation, content, act, kind_of, ends_schedule,
  parse_lines, report_lines, parse_schedule_a, zones_of,
}

-- A property of the list of holdings that each new one keeps.
module _ (P : List ParsedHolding → Type 0)
    (adds : (hs : List ParsedHolding) (r : FdRow)
      → P hs
      → P (hs ++ finalize r (length hs) ∷ [])) where
  add_holding_keeps : (o : Option FdRow) (hs : List ParsedHolding) → P hs → P (add_holding o hs)
  unfolding add_holding
  add_holding_keeps none hs h = h
  add_holding_keeps (some r) hs h = elim (Bool-cases (is_empty r.asset && is_empty r.value)) [
    | inl e ↦ rw e h
    | inr e ↦ rw e (adds hs r h)
  ]

  flush_keeps : (s : State) → P s.holdings → P (flush s).holdings
  unfolding flush
  flush_keeps s h = add_holding_keeps s.current s.holdings h

  continue_row_keeps :
      (z : Zones) (o : Option FdRow) (s : State) → P s.holdings → P (continue_row z o s).holdings
  unfolding continue_row
  continue_row_keeps z none s h = h
  continue_row_keeps z (some r) s h = elim (Bool-cases s.in_annotation) [
    | inl e ↦ rw e h
    | inr e ↦ rw e h
  ]

  add_line_keeps : (z : Zones) (s : State) → P s.holdings → P (add_line z s).holdings
  unfolding add_line open_row
  add_line_keeps z s h = elim (Bool-cases (all_empty z)) [
    | inl e ↦ rw e h
    | inr e ↦ rw e (elim (Bool-cases (opens_row z s)) [
      | inl o ↦ rw o (flush_keeps s h)
      | inr o ↦ rw o (continue_row_keeps z s.current s h)
    ])
  ]

  act_keeps : (line : List Word) (s : State) (k : Kind) → P s.holdings → P (act line s k).holdings
  unfolding act
  act_keeps line s (heading letter) h = h
  act_keeps line s outside h = h
  act_keeps line s (header cols) h = h
  act_keeps line s passed_over h = h
  act_keeps line s annotation h = h
  act_keeps line s (content cols) h = add_line_keeps (zones_of cols line) s h

  parse_lines_keeps :
      (lines : List (List Word)) (s : State) → P s.holdings → P (parse_lines lines s)
  unfolding parse_lines
  parse_lines_keeps [] s h = flush_keeps s h
  parse_lines_keeps (line ∷ lines) s h =
      let kind = kind_of s.in_a s.cols line in
      elim (Bool-cases (ends_schedule s.in_a kind)) [
        | inl e ↦ rw e (flush_keeps s h)
        | inr e ↦ rw e (parse_lines_keeps lines (act line s kind) (act_keeps line s kind h))
      ]

abbrev owners : List Text
owners = codes "self" ∷ codes "spouse" ∷ codes "joint" ∷ codes "child" ∷ []

-- The values that the database's column allows.
pub HasOwner : ParsedHolding → Type 0
HasOwner h = one_of owners h.owner ≡ true

finalize-HasOwner : (r : FdRow) (i : ℕ) → HasOwner (finalize r i)
unfolding HasOwner finalize holder one_of text_eq
finalize-HasOwner r i = ground arith

abbrev IsNumbered : List ParsedHolding → Type 0
IsNumbered hs = map (λ h. h.row_index) hs ≡ range_from 0 (length hs)

IsNumbered-append :
    (hs : List ParsedHolding) (r : FdRow)
    → IsNumbered hs
    → IsNumbered (hs ++ finalize r (length hs) ∷ [])
unfolding finalize
IsNumbered-append hs r h =
    rw (map-append, h, length-append) (ground (arith, range_from-suc 0 (length hs)))

-- The holdings of a report are numbered 0, 1, 2 and so on, in order, and each has one of the four owners.
pub parse_schedule_a-IsNumbered :
    (pages : List (List Word))
    → (map (λ h. h.row_index) (parse_schedule_a pages)
        ≡ range_from 0 (length (parse_schedule_a pages)))
      × All HasOwner (parse_schedule_a pages)
unfolding parse_schedule_a
parse_schedule_a-IsNumbered pages =
    parse_lines_keeps (λ hs. IsNumbered hs × All HasOwner hs)
      (λ hs r h. (
        IsNumbered-append hs r h.0,
        All-append HasOwner hs (finalize r (length hs) ∷ []) h.1
            (finalize-HasOwner r (length hs), tt),
      ))
      (report_lines pages) start (refl, tt)
