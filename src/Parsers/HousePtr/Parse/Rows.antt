-- ===== src/Parsers/HousePtr/Parse/Rows.antt =====
-- How many rows the loop reads, and how it numbers them.
use evnt_trden_public.Base.{
  ℕ, zero, suc, ◌+◌, ◌≡◌, refl, sym, ap, ◌∙◌, true, false, Option, none, some, Option-cases, inl,
  inr, Text, >>=-eq-some, of_some, is_some, List, [], ◌∷◌, ◌++◌, map, range_from, if◌then◌else◌,
  arith,
}
use mathlib.Core.List.{map-append}
use evnt_trden_public.Parsers.HousePtr.{Word, ColumnBounds, ParsedTransaction}
use evnt_trden_public.Parsers.HousePtr.Lines.{group_lines}
use evnt_trden_public.Parsers.HousePtr.Columns.{detect_column_bounds}
use evnt_trden_public.Parsers.HousePtr.Row.{OpenRecord, finalize}
use evnt_trden_public.Parsers.HousePtr.Row.Fields.{finalize-row_index}
use evnt_trden_public.Parsers.HousePtr.Parse.{
  State, start, flush, open_row, other_line, Kind, starts, other, kind_of, step, run_lines,
  run_pages, parse_ptr_transactions, act,
}
use evnt_trden_public.Parsers.HousePtr.Parse.Starts.{
  is_start, is_footer, kind_starts, kind_starts-above, report_starts,
}

-- Rows finished and the one that is open.
abbrev opened : State → ℕ
opened s = s.row_index + (if is_some s.current then 1 else 0)

abbrev indices : List ParsedTransaction → List ℕ
indices = map (λ t. t.row_index)

-- The finished rows carry the indices from 0 up.
abbrev IsNumbered : State → Type 0
IsNumbered s = indices s.results ≡ range_from 0 s.row_index

pub range_from-suc : (i n : ℕ) → range_from i (suc n) ≡ range_from i n ++ (i + n) ∷ []
range_from-suc i zero = ground arith
range_from-suc i (suc n) = ground (arith, range_from-suc (suc i) n)

-- One more row is numbered by the counter.
indices-append :
    (ts : List ParsedTransaction) (t : ParsedTransaction) (n : ℕ)
    → indices ts ≡ range_from 0 n
    → t.row_index ≡ n
    → indices (ts ++ t ∷ []) ≡ range_from 0 (suc n)
indices-append ts t n h e = rw (map-append, h, e) (ground (arith, range_from-suc 0 n))

-- The two ways in which `flush` ends without an exception.
pub data Flushed (s t : State) : Type 0 where
  closed : s.current ≡ none → t ≡ s → Flushed s t
  wrote :
      (r : OpenRecord) (u : ParsedTransaction)
      → s.current ≡ some r
      → finalize r s.row_index ≡ some u
      → t ≡ record s { results = s.results ++ u ∷ []; current = none; row_index = s.row_index + 1 }
      → Flushed s t

pub flush-Flushed : (s t : State) → flush s ≡ some t → Flushed s t
unfolding flush
flush-Flushed s t h = elim (Option-cases s.current) [
  | inl e ↦ closed e (ground arith)
  | inr (r, e) ↦ elim (Option-cases (finalize r s.row_index)) [
    | inl f ↦ absurd (ground arith)
    | inr (u, f) ↦ wrote r u e f (ground arith)
  ]
]

module _ (s t : State) where
  opened-Flushed : Flushed s t → opened t ≡ opened s
  opened-Flushed (closed e f) = ground arith
  opened-Flushed (wrote r u e d f) = ground arith

  row_index-Flushed : Flushed s t → t.row_index ≡ opened s
  row_index-Flushed (closed e f) = ground arith
  row_index-Flushed (wrote r u e d f) = ground arith

  past-Flushed : Flushed s t → t.past_footer ≡ s.past_footer
  past-Flushed (closed e f) = ground arith
  past-Flushed (wrote r u e d f) = ground arith

  IsNumbered-Flushed : Flushed s t → IsNumbered s → IsNumbered t
  IsNumbered-Flushed (closed e f) v = rw f v
  IsNumbered-Flushed (wrote r u e d f) v = rw f (
      ground (arith, indices-append s.results u s.row_index v (finalize-row_index r s.row_index d)))

record Advanced (s t : State) (k : Kind) : Type 0 where
  rows : opened t ≡ opened s + is_start k
  past : t.past_footer ≡ (if is_footer k then true else s.past_footer)
  numbers : IsNumbered s → IsNumbered t

other_line-Advanced :
    (bounds : ColumnBounds) (line : List Word) (label : Option Text) (s : State)
    → Advanced s (other_line bounds line label s) other
unfolding other_line is_start is_footer
other_line-Advanced bounds line none s = record {
  rows = ground arith;
  past = ground arith;
  numbers = λ v. ground arith;
}
other_line-Advanced bounds line (some label) s = record {
  rows = ground arith;
  past = ground arith;
  numbers = λ v. ground arith;
}

open_row-Advanced :
    (bounds : ColumnBounds) (line : List Word) (s t : State)
    → Flushed s t
    → Advanced s (open_row bounds line t) starts
unfolding open_row is_start is_footer
open_row-Advanced bounds line s t f = record {
  rows = ground (arith, row_index-Flushed s t f);
  past = past-Flushed s t f;
  numbers = IsNumbered-Flushed s t f;
}

act-Advanced :
    (bounds : ColumnBounds) (line : List Word) (s t : State) (k : Kind)
    → act bounds line s k ≡ some t
    → Advanced s t k
unfolding act is_start is_footer
act-Advanced bounds line s t other h = rw (sym (of_some h)) (other_line-Advanced bounds line _ s)
act-Advanced bounds line s t starts h =
    let (u, e, f) = >>=-eq-some (flush s) _ h in
    rw (sym (of_some f)) (open_row-Advanced bounds line s u (flush-Flushed s u e))
act-Advanced bounds line s t k h = record {
  rows = ground arith;
  past = ground arith;
  numbers = λ v. rw (sym (of_some h)) v;
}

step-Advanced :
    (bounds : ColumnBounds) (s : State) (line : List Word) (t : State)
    → step bounds s line ≡ some t
    → Advanced s t (kind_of bounds s.past_footer line)
unfolding step
step-Advanced bounds s line t h = act-Advanced bounds line s t (kind_of bounds s.past_footer line) h

run_lines-Rows :
    (bounds : ColumnBounds) (lines : List (List Word)) (s t : State)
    → run_lines bounds lines s ≡ some t
    → (opened t ≡ opened s + kind_starts bounds s.past_footer lines) × (IsNumbered s → IsNumbered t)
unfolding run_lines kind_starts
run_lines-Rows bounds [] s t h = (ground arith, λ v. rw (sym (of_some h)) v)
run_lines-Rows bounds (line ∷ lines) s t h =
    let (u, e, f) = >>=-eq-some (step bounds s line) _ h in
    let a = step-Advanced bounds s line u e in
    let b = run_lines-Rows bounds lines u t f in
    (
      omega (arith, a.rows, b.0, ap (λ p. kind_starts bounds p lines) a.past),
      λ v. b.1 (a.numbers v),
    )

run_pages-Rows :
    (bounds : ColumnBounds) (pages : List (List Word)) (s t : State)
    → run_pages bounds pages s ≡ some t
    → (opened t ≡ opened s + report_starts bounds pages) × (IsNumbered s → IsNumbered t)
unfolding run_pages report_starts
run_pages-Rows bounds [] s t h = (ground arith, λ v. rw (sym (of_some h)) v)
run_pages-Rows bounds (words ∷ pages) s t h =
    let s' = record s { past_footer = false } in
    let (u, e, f) = >>=-eq-some (run_lines bounds (group_lines words) s') _ h in
    let a = run_lines-Rows bounds (group_lines words) s' u e in
    let b = run_pages-Rows bounds pages u t f in
    (omega (arith, a.0, b.0, kind_starts-above bounds (group_lines words)), λ v. b.1 (a.1 v))

-- A report that is read without an exception gives one transaction for each line, above the footer
-- of its page, that starts one, and their row indices are 0, 1, 2 and so on, in order.
pub parse_ptr_transactions-rows :
    (pages : List (List Word)) (ts : List ParsedTransaction)
    → parse_ptr_transactions pages ≡ some ts
    → map (λ t. t.row_index) ts ≡ range_from 0 (report_starts (detect_column_bounds pages) pages)
unfolding parse_ptr_transactions
parse_ptr_transactions-rows pages ts h =
    let bounds = detect_column_bounds pages in
    let (s, e, f) = >>=-eq-some (run_pages bounds pages start) _ h in
    let (t, g, k) = >>=-eq-some (flush s) _ f in
    let a = run_pages-Rows bounds pages start s e in
    let d = flush-Flushed s t g in
    ap indices (sym (of_some k))
    ∙ IsNumbered-Flushed s t d (a.1 refl)
    ∙ ap (range_from 0) (omega (arith, row_index-Flushed s t d, a.0))
