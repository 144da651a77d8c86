-- ===== src/Parsers/HousePtr/Parse/Invariant.antt =====
-- The rule for properties of the rows: what holds of an open record, line by line, holds of every
-- transaction that it is finished into.
use evnt_trden_public.Base.{
  ℕ, ◌≡◌, refl, sym, Bool, true, false, Option, none, some, >>=-eq-some, of_some, inl, inr, List,
  [], ◌∷◌, All, All-append, Text, arith, Bool-cases, map_option, is_some, ◌&&◌, codes, text_eq,
}
use evnt_trden_public.Parsers.HousePtr.{Word, ColumnBounds, ParsedTransaction}
use evnt_trden_public.Parsers.HousePtr.Lines.{group_lines}
use evnt_trden_public.Parsers.HousePtr.Row.{
  OpenRecord, from_line, extend, add_description_words, finalize,
}
use evnt_trden_public.Parsers.HousePtr.Parse.Rows.{Flushed, closed, wrote, flush-Flushed}
use evnt_trden_public.Parsers.HousePtr.Parse.{
  State, start, flush, open_row, other_line, Kind, starts, other, kind_of, act, step, run_lines,
  run_pages, line_starts_transaction,
}

abbrev OfCurrent : (OpenRecord → Type 0) → Option OpenRecord → Type 0
OfCurrent P none = Unit
OfCurrent P (some r) = P r

-- `L` is what is known of the lines, `P` of the open record, `Q` of a finished transaction.
module _ (bounds : ColumnBounds) (L : List Word → Type 0) (P : OpenRecord → Type 0)
    (Q : ParsedTransaction → Type 0)
    (opens : (line : List Word)
      → L line
      → line_starts_transaction bounds line ≡ true
      → P (from_line bounds line))
    (extends : (r : OpenRecord) (line : List Word) → P r → P (extend bounds r line))
    (describes : (r : OpenRecord) (line : List Word) → P r → P (add_description_words r line))
    (finishes : (r : OpenRecord) (i : ℕ) (t : ParsedTransaction)
      → P r
      → finalize r i ≡ some t
      → Q t) where
  abbrev Holds : State → Type 0
  Holds s = OfCurrent P s.current × All Q s.results

  Flushed-All : (s t : State) → Flushed s t → Holds s → All Q t.results
  Flushed-All s t (closed e f) v = rw f v.1
  Flushed-All s t (wrote r u e d f) v =
      rw f (All-append Q s.results (u ∷ []) v.1 (finishes r s.row_index u (rw e at v.0) d, tt))

  map-OfCurrent :
      (f : OpenRecord → OpenRecord)
      → ((r : OpenRecord) → P r → P (f r))
      → (o : Option OpenRecord) → OfCurrent P o
      → OfCurrent P (map_option f o)
  map-OfCurrent f keeps none v = tt
  map-OfCurrent f keeps (some r) v = keeps r v

  other_line-Holds :
      (line : List Word) (label : Option Text) (s : State)
      → Holds s
      → Holds (other_line bounds line label s)
  unfolding other_line
  other_line-Holds line (some label) s v = elim (Bool-cases (text_eq label (codes "description"))) [
    | inl e ↦ rw e (
      map-OfCurrent (λ r. add_description_words r line) (λ r. describes r line) s.current v.0,
      v.1,
    )
    | inr e ↦ rw e v
  ]
  other_line-Holds line none s v = elim (Bool-cases (s.describing && is_some s.current)) [
    | inl e ↦ rw e (
      map-OfCurrent (λ r. add_description_words r line) (λ r. describes r line) s.current v.0,
      v.1,
    )
    | inr e ↦ rw e (elim (Bool-cases s.in_annotation_block) [
      | inl g ↦ rw g v
      | inr g ↦
          rw g (map-OfCurrent (λ r. extend bounds r line) (λ r. extends r line) s.current v.0, v.1)
    ])
  ]

  start_line :
      (past : Bool) (line : List Word)
      → kind_of bounds past line ≡ starts
      → line_starts_transaction bounds line ≡ true
  unfolding kind_of
  start_line past [] h = cc
  start_line past (w ∷ line) h = ground arith

  act-Holds :
      (line : List Word) (s t : State) (k : Kind)
      → L line
      → (k ≡ starts → line_starts_transaction bounds line ≡ true)
      → act bounds line s k ≡ some t
      → Holds s
      → Holds t
  unfolding act open_row
  act-Holds line s t other known begins h v = rw (sym (of_some h)) (other_line-Holds line _ s v)
  act-Holds line s t starts known begins h v =
      let (u, e, f) = >>=-eq-some (flush s) _ h in
      rw (sym (of_some f)) (opens line known (begins refl), Flushed-All s u (flush-Flushed s u e) v)
  act-Holds line s t k known begins h v = rw (sym (of_some h)) v

  run_lines-Holds :
      (lines : List (List Word)) (s t : State)
      → All L lines
      → run_lines bounds lines s ≡ some t
      → Holds s
      → Holds t
  unfolding run_lines
  run_lines-Holds [] s t known h v = rw (sym (of_some h)) v
  run_lines-Holds (line ∷ lines) s t known h v =
      let (u, e, f) = >>=-eq-some (step bounds s line) _ h in
      run_lines-Holds lines u t known.1 f (
        act-Holds line s u (kind_of bounds s.past_footer line) known.0
          (start_line s.past_footer line) e v)

  run_pages-Holds :
      (pages : List (List Word)) (s t : State)
      → All (λ words. All L (group_lines words)) pages
      → run_pages bounds pages s ≡ some t
      → Holds s
      → Holds t
  unfolding run_pages
  run_pages-Holds [] s t known h v = rw (sym (of_some h)) v
  run_pages-Holds (words ∷ pages) s t known h v =
      let s' = record s { past_footer = false } in
      let (u, e, f) = >>=-eq-some (run_lines bounds (group_lines words) s') _ h in
      run_pages-Holds pages u t known.1 f (run_lines-Holds (group_lines words) s' u known.0 e v)

  pub results-All :
      (pages : List (List Word)) (s t : State)
      → All (λ words. All L (group_lines words)) pages
      → run_pages bounds pages start ≡ some s
      → flush s ≡ some t
      → All Q t.results
  results-All pages s t known h g =
      Flushed-All s t (flush-Flushed s t g) (run_pages-Holds pages start s known h (tt, tt))
