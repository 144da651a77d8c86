-- ===== src/Ingest/BackfillHouseReparse/Twice.antt =====
-- A report that was applied is not applied again.
use evnt_trden_public.Base.{
  ℕ, ◌+◌, ◌≡◌, refl, sym, ap, ◌∙◌, Bool, false, ◌&&◌, not, Option, none, some, is_some, >>=-eq-some,
  of_some, Bool-cases, inl, inr, List, [], ◌∷◌, Text, text_eq, arith,
}
use evnt_trden_public.Db.{Transaction, Db}
use evnt_trden_public.Parsers.HousePtr.{ParsedTransaction}
use evnt_trden_public.Ingest.HousePtrs.{parse_iso_date}
use evnt_trden_public.Ingest.BackfillHouseReparse.{
  is_option, needs_backfill, parsed_by_row, fill, fill_source, fill_asset_type, fill_option,
  fill_row, fill_by, apply_row, apply_rows, apply,
}

fill_twice : (old new : Option Text) → fill (fill old new).0 new ≡ ((fill old new).0, false)
unfolding fill
fill_twice (some old) new = refl
fill_twice none none = refl
fill_twice none (some new) = refl

-- What `fill_option` leaves.
record Optioned (p : ParsedTransaction) (t u : Transaction) : Type 0 where
  done : fill_option p u ≡ some (u, false)
  source : u.source_transaction_id ≡ t.source_transaction_id
  type : u.asset_type ≡ t.asset_type
  filing : u.filing_id ≡ t.filing_id
  index : u.row_index ≡ t.row_index

fill_option-Optioned :
    (p : ParsedTransaction) (t u : Transaction) (c : Bool)
    → fill_option p t ≡ some (u, c)
    → Optioned p t u
unfolding fill_option
fill_option-Optioned p t u c h =
    elim (Bool-cases
      (is_option t.asset_type && (not (is_some t.option_type) && is_some p.option_type))) [
        | inl e ↦
            let (expiry, f, g) = >>=-eq-some (parse_iso_date p.expiry) _ (rw e at h) in
            let same = ap (λ (r : Transaction × Bool). r.0) (of_some g) in
            rw (sym same) (record {
              done = ground (arith, e);
              source = refl;
              type = refl;
              filing = refl;
              index = refl;
            })
        | inr e ↦
            let same = ap (λ (r : Transaction × Bool). r.0) (of_some (rw e at h)) in
            rw (sym same)
              (record { done = rw e refl; source = refl; type = refl; filing = refl; index = refl })
      ]

fill_row_twice :
    (p : ParsedTransaction) (t u : Transaction) (c : Bool)
    → fill_row p t ≡ some (u, c)
    → (fill_row p u ≡ some (u, false)) × (u.filing_id ≡ t.filing_id) × (u.row_index ≡ t.row_index)
unfolding fill_row fill_source fill_asset_type
fill_row_twice p t u c h =
    let (r, e, f) = >>=-eq-some (fill_option p (fill_asset_type p (fill_source p t).0).0) _ h in
    let o = fill_option-Optioned p (fill_asset_type p (fill_source p t).0).0 r.0 r.1 e in
    let same = ap (λ (x : Transaction × Bool). x.0) (of_some f) in
    let source : fill r.0.source_transaction_id p.source_transaction_id
        ≡ (r.0.source_transaction_id, false) =
      rw o.source (fill_twice t.source_transaction_id p.source_transaction_id) in
    let type : fill r.0.asset_type p.asset_type ≡ (r.0.asset_type, false) =
      rw o.type (fill_twice t.asset_type p.asset_type) in
    rw (sym same) (rw (source, type, o.done) refl, o.filing, o.index)

fill_by_twice :
    (o : Option ParsedTransaction) (t u : Transaction) (c : Bool)
    → fill_by o t ≡ some (u, c)
    → (fill_by o u ≡ some (u, false)) × (u.filing_id ≡ t.filing_id) × (u.row_index ≡ t.row_index)
unfolding fill_by
fill_by_twice none t u c h =
    let same = ap (λ (r : Transaction × Bool). r.0) (of_some h) in rw (sym same) (refl, refl, refl)
fill_by_twice (some p) t u c h = fill_row_twice p t u c h

apply_row_twice :
    (id : Text) (ts : List ParsedTransaction) (t u : Transaction) (c : Bool)
    → apply_row id ts t ≡ some (u, c)
    → apply_row id ts u ≡ some (u, false)
unfolding apply_row
apply_row_twice id ts t u c h = elim (Bool-cases (text_eq t.filing_id id && needs_backfill t)) [
  | inl e ↦
      let (again, filing, index) = fill_by_twice (parsed_by_row t.row_index ts) t u c (rw e at h) in
      elim (Bool-cases (text_eq u.filing_id id && needs_backfill u)) [
        | inl k ↦ rw k (ap (λ i. fill_by (parsed_by_row i ts) u) index ∙ again)
        | inr k ↦ rw k refl
      ]
  | inr e ↦
      let same = ap (λ (r : Transaction × Bool). r.0) (of_some (rw e at h)) in
      rw (sym same) (rw e refl)
]

zero_and_zero : 0 + 0 ≡ 0
zero_and_zero = omega arith

apply_rows_twice :
    (id : Text) (ts : List ParsedTransaction) (rows after : List Transaction) (n : ℕ)
    → apply_rows id ts rows ≡ some (after, n)
    → apply_rows id ts after ≡ some (after, 0)
unfolding apply_rows
apply_rows_twice id ts [] after n h =
    let same = ap (λ (r : List Transaction × ℕ). r.0) (of_some h) in rw (sym same) refl
apply_rows_twice id ts (t ∷ rows) after n h =
    let (first, e, f) = >>=-eq-some (apply_row id ts t) _ h in
    let (rest, g, k) = >>=-eq-some (apply_rows id ts rows) _ f in
    let same = ap (λ (r : List Transaction × ℕ). r.0) (of_some k) in
    rw (sym same) (
      rw (apply_row_twice id ts t first.0 first.1 e, apply_rows_twice id ts rows rest.0 rest.1 g)
        (ap (λ n. some (first.0 ∷ rest.0, n)) zero_and_zero))

-- A report that was applied once changes and counts no row when it is applied again.
apply_twice :
    (id : Text) (ts : List ParsedTransaction) (db after : Db) (n : ℕ)
    → apply id ts db ≡ some (after, n)
    → apply id ts after ≡ some (after, 0)
unfolding apply
apply_twice id ts db after n h =
    let (changed, e, f) = >>=-eq-some (apply_rows id ts db.transactions) _ h in
    let same = ap (λ (r : Db × ℕ). r.0) (of_some f) in
    rw (sym same) (rw (apply_rows_twice id ts db.transactions changed.0 changed.1 e) refl)
