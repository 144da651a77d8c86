-- ===== src/Ingest/BackfillHouseReparse/Fills.antt =====
-- A run only fills columns that are empty.
use evnt_trden_public.Base.{
  ℕ, ◌≡◌, refl, sym, ap, ◌∙◌, Bool, true, ◌&&◌, not, Option, none, some, is_some, >>=-eq-some,
  of_some, Bool-cases, inl, inr, List, [], ◌∷◌, Text, text_eq, arith, ◌⊎◌, codes, text_eq_iff,
}
use evnt_trden_public.Db.{Transaction, Db}
use evnt_trden_public.Parsers.HousePtr.{ParsedTransaction}
use evnt_trden_public.Ingest.HousePtrs.{Loaded, parse_iso_date}
use evnt_trden_public.Ingest.BackfillHouseReparse.{
  is_option, needs_backfill, parsed_by_row, fill, fill_source, fill_asset_type, fill_option,
  fill_row, fill_by, apply_row, apply_rows, apply, parse_loaded, BackfillRun, go_on, backfill_all,
  backfill_missing_fields, filings_needing_backfill,
}

-- `u` is `t` but for five columns, of which two are as before where they were not empty. The strike and
-- the expiry of an option go with its type, and are as before where that was not empty, or where the
-- asset is no option.
pub record Filled (t u : Transaction) : Type 0 where
  pub rest : u ≡ record t {
    source_transaction_id = u.source_transaction_id;
    asset_type = u.asset_type;
    option_type = u.option_type;
    strike = u.strike;
    expiry = u.expiry;
  }
  pub source :
      is_some t.source_transaction_id ≡ true → u.source_transaction_id ≡ t.source_transaction_id
  pub type : is_some t.asset_type ≡ true → u.asset_type ≡ t.asset_type
  pub option :
      is_some t.option_type ≡ true
      → (u.option_type ≡ t.option_type) × (u.strike ≡ t.strike) × (u.expiry ≡ t.expiry)
  pub only_options :
      ((u.option_type ≡ t.option_type) × (u.strike ≡ t.strike) × (u.expiry ≡ t.expiry))
      ⊎ (u.asset_type ≡ some (codes "OP"))

Filled-refl : (t : Transaction) → Filled t t
Filled-refl t = record {
  rest = refl;
  source = λ h. refl;
  type = λ h. refl;
  option = λ h. (refl, refl, refl);
  only_options = inl (refl, refl, refl);
}

Filled-trans : (t u v : Transaction) → Filled t u → Filled u v → Filled t v
Filled-trans t u v f g = record {
  rest =
      g.rest
      ∙ ap
          (λ (x : Transaction). record x {
            source_transaction_id = v.source_transaction_id;
            asset_type = v.asset_type;
            option_type = v.option_type;
            strike = v.strike;
            expiry = v.expiry;
          })
          f.rest;
  source = λ h. g.source (rw (f.source h) h) ∙ f.source h;
  type = λ h. g.type (rw (f.type h) h) ∙ f.type h;
  option =
      λ h. let (a, b, c) = f.option h in let (d, e, k) = g.option (rw a h) in (d ∙ a, e ∙ b, k ∙ c);
  only_options = elim g.only_options [
    | inr op ↦ inr op
    | inl (d, e, k) ↦ elim f.only_options [
      | inl (a, b, c) ↦ inl (d ∙ a, e ∙ b, k ∙ c)
      | inr op ↦ inr (g.type (rw op refl) ∙ op)
    ]
  ];
}

-- The same rows in the same order, each filled.
abbrev pub AllFilled : List Transaction → List Transaction → Type 0
AllFilled [] [] = Unit
AllFilled (t ∷ ts) (u ∷ us) = Filled t u × AllFilled ts us
AllFilled [] (u ∷ us) = ⊥
AllFilled (t ∷ ts) [] = ⊥

AllFilled-refl : (ts : List Transaction) → AllFilled ts ts
AllFilled-refl [] = tt
AllFilled-refl (t ∷ ts) = (Filled-refl t, AllFilled-refl ts)

AllFilled-trans :
    (ts us vs : List Transaction) → AllFilled ts us → AllFilled us vs → AllFilled ts vs
AllFilled-trans [] [] [] f g = tt
AllFilled-trans [] [] (v ∷ vs) f g = elim g [ ]
AllFilled-trans [] (u ∷ us) vs f g = elim f [ ]
AllFilled-trans (t ∷ ts) [] vs f g = elim f [ ]
AllFilled-trans (t ∷ ts) (u ∷ us) [] f g = elim g [ ]
AllFilled-trans (t ∷ ts) (u ∷ us) (v ∷ vs) (f, fs) (g, gs) =
    (Filled-trans t u v f g, AllFilled-trans ts us vs fs gs)

fill-some : (old new : Option Text) → is_some old ≡ true → (fill old new).0 ≡ old
unfolding fill
fill-some (some old) new h = refl
fill-some none new h = absurd cc

is_option-some : (type : Option Text) → is_option type ≡ true → type ≡ some (codes "OP")
is_option-some none h = absurd cc
is_option-some (some x) h = ap some ((text_eq_iff x (codes "OP")).0 h)

fill_option-Filled :
    (p : ParsedTransaction) (t u : Transaction) (c : Bool)
    → fill_option p t ≡ some (u, c)
    → Filled t u
unfolding fill_option
fill_option-Filled p t u c h =
    elim (Bool-cases
      (is_option t.asset_type && (not (is_some t.option_type) && is_some p.option_type))) [
        | inl e ↦
            let (expiry, f, g) = >>=-eq-some (parse_iso_date p.expiry) _ (rw e at h) in
            let same = ap (λ (r : Transaction × Bool). r.0) (of_some g) in
            rw (sym same) (record {
              rest = refl;
              source = λ h. refl;
              type = λ h. refl;
              option = λ k. absurd (ground (arith, e, k));
              only_options = inr (is_option-some t.asset_type (ground (arith, e)));
            })
        | inr e ↦
            let same = ap (λ (r : Transaction × Bool). r.0) (of_some (rw e at h)) in
            rw (sym same) (Filled-refl t)
      ]

fill_row-Filled :
    (p : ParsedTransaction) (t u : Transaction) (c : Bool) → fill_row p t ≡ some (u, c) → Filled t u
unfolding fill_row fill_source fill_asset_type
fill_row-Filled p t u c h =
    let (r, e, f) = >>=-eq-some (fill_option p (fill_asset_type p (fill_source p t).0).0) _ h in
    let same = ap (λ (x : Transaction × Bool). x.0) (of_some f) in
    let first : Filled t (fill_asset_type p (fill_source p t).0).0 = record {
      rest = refl;
      source = fill-some t.source_transaction_id p.source_transaction_id;
      type = fill-some t.asset_type p.asset_type;
      option = λ h. (refl, refl, refl);
      only_options = inl (refl, refl, refl);
    } in
    rw (sym same) (
      Filled-trans t (fill_asset_type p (fill_source p t).0).0 r.0 first
        (fill_option-Filled p (fill_asset_type p (fill_source p t).0).0 r.0 r.1 e))

fill_by-Filled :
    (o : Option ParsedTransaction) (t u : Transaction) (c : Bool)
    → fill_by o t ≡ some (u, c)
    → Filled t u
unfolding fill_by
fill_by-Filled none t u c h =
    rw (sym (ap (λ (r : Transaction × Bool). r.0) (of_some h))) (Filled-refl t)
fill_by-Filled (some p) t u c h = fill_row-Filled p t u c h

apply_row-Filled :
    (id : Text) (ts : List ParsedTransaction) (t u : Transaction) (c : Bool)
    → apply_row id ts t ≡ some (u, c)
    → Filled t u
unfolding apply_row
apply_row-Filled id ts t u c h = elim (Bool-cases (text_eq t.filing_id id && needs_backfill t)) [
  | inl e ↦ fill_by-Filled (parsed_by_row t.row_index ts) t u c (rw e at h)
  | inr e ↦ rw (sym (ap (λ (r : Transaction × Bool). r.0) (of_some (rw e at h)))) (Filled-refl t)
]

apply_rows-AllFilled :
    (id : Text) (ts : List ParsedTransaction) (rows after : List Transaction) (n : ℕ)
    → apply_rows id ts rows ≡ some (after, n)
    → AllFilled rows after
unfolding apply_rows
apply_rows-AllFilled id ts [] after n h =
    rw (sym (ap (λ (r : List Transaction × ℕ). r.0) (of_some h))) tt
apply_rows-AllFilled id ts (t ∷ rows) after n h =
    let (first, e, f) = >>=-eq-some (apply_row id ts t) _ h in
    let (rest, g, k) = >>=-eq-some (apply_rows id ts rows) _ f in
    rw (sym (ap (λ (r : List Transaction × ℕ). r.0) (of_some k)))
      (apply_row-Filled id ts t first.0 first.1 e, apply_rows-AllFilled id ts rows rest.0 rest.1 g)

-- Only the transactions change, and these are filled.
pub record Fills (db after : Db) : Type 0 where
  pub others : after ≡ record db { transactions = after.transactions }
  pub rows : AllFilled db.transactions after.transactions

Fills-refl : (db : Db) → Fills db db
Fills-refl db = record { others = refl; rows = AllFilled-refl db.transactions }

Fills-trans : (a b c : Db) → Fills a b → Fills b c → Fills a c
Fills-trans a b c f g = record {
  others = g.others ∙ ap (λ (x : Db). record x { transactions = c.transactions }) f.others;
  rows = AllFilled-trans a.transactions b.transactions c.transactions f.rows g.rows;
}

apply-Fills :
    (id : Text) (ts : List ParsedTransaction) (db after : Db) (n : ℕ)
    → apply id ts db ≡ some (after, n)
    → Fills db after
unfolding apply
apply-Fills id ts db after n h =
    let (changed, e, f) = >>=-eq-some (apply_rows id ts db.transactions) _ h in
    rw (sym (ap (λ (r : Db × ℕ). r.0) (of_some f))) (record {
      others = refl;
      rows = apply_rows-AllFilled id ts db.transactions changed.0 changed.1 e;
    })

module _ (download : Text → Loaded) where
  go_on-Fills :
      (rest : Db → BackfillRun) (db : Db) (o : Option (Db × ℕ))
      → ((next : Db) → Fills next (rest next).db)
      → ((next : Db) (n : ℕ) → o ≡ some (next, n) → Fills db next)
      → Fills db (go_on rest db o).db
  unfolding go_on
  go_on-Fills rest db none later step = Fills-refl db
  go_on-Fills rest db (some (next, n)) later step =
      Fills-trans db next (rest next).db (step next n refl) (later next)

  backfill_all-Fills :
      (batch : List (Text × Text)) (db : Db) → Fills db (backfill_all download batch db).db
  unfolding backfill_all
  backfill_all-Fills [] db = Fills-refl db
  backfill_all-Fills ((id, key) ∷ rest) db =
      go_on-Fills (backfill_all download rest) db _ (backfill_all-Fills rest) λ next n h.
        let (ts, e, f) = >>=-eq-some (parse_loaded (download key)) _ h in
        apply-Fills id ts db next n f

  -- A run, also one that an exception ends, changes the transactions alone, and of these only five columns:
  -- the id of the source and the type of the asset where they were empty, and an option's type, strike and
  -- expiry where its type was empty and the asset, as the run leaves it, is an option.
  pub backfill_missing_fields-Fills : (db : Db) → Fills db (backfill_missing_fields download db).db
  unfolding backfill_missing_fields
  backfill_missing_fields-Fills db = backfill_all-Fills (filings_needing_backfill db) db
