-- ===== src/Ingest/HousePtrs/Rows.antt =====
-- The rows that `_save_transactions` adds never break the constraint on (filing_id, row_index), if the
-- filing has none yet.
use evnt_trden_public.Base.{
  ℕ, suc, ◌≡◌, refl, sym, ap, ◌∙◌, Bool, true, false, ◌&&◌, ◌||◌, not, some, Option-cases, inl, inr,
  >>=-eq-some, of_some, List, [], ◌∷◌, ◌++◌, map, range_from, ltb, Text, text_eq, text_eq_iff,
  arith,
}
use evnt_trden_public.Db.{Transaction, Db}
use evnt_trden_public.Parsers.HousePtr.{ParsedTransaction}
use evnt_trden_public.Ingest.HousePtrs.{
  key_taken, unique_keys, add_transaction, add_issue, transaction_of, add_rows, parse_iso_date,
}

-- All rows of the filing have smaller indices than `n`.
unfoldable pub below : Text → ℕ → List Transaction → Bool
below id n [] = true
below id n (t ∷ ts) = (not (text_eq t.filing_id id) || ltb t.row_index n) && below id n ts

-- The rows of a report are numbered from `n`.
abbrev pub IndexedFrom : ℕ → List ParsedTransaction → Type 0
IndexedFrom n [] = Unit
IndexedFrom n (t ∷ ts) = (t.row_index ≡ n) × IndexedFrom (suc n) ts

pub IndexedFrom-range :
    (n k : ℕ) (ts : List ParsedTransaction)
    → map (λ t. t.row_index) ts ≡ range_from n k
    → IndexedFrom n ts
IndexedFrom-range n k [] h = tt
IndexedFrom-range n ℕ.zero (t ∷ ts) h = absurd cc
IndexedFrom-range n (suc k) (t ∷ ts) h = (cc, IndexedFrom-range (suc n) k ts cc)

below-append :
    (id : Text) (n : ℕ) (ts us : List Transaction)
    → below id n (ts ++ us) ≡ (below id n ts && below id n us)
unfolding below
below-append id n [] us = refl
below-append id n (t ∷ ts) us = ground (arith, below-append id n ts us)

below-suc :
    (id : Text) (n : ℕ) (ts : List Transaction) → below id n ts ≡ true → below id (suc n) ts ≡ true
unfolding below
below-suc id n [] h = refl
below-suc id n (t ∷ ts) h = ground (arith, below-suc id n ts)

key_taken-below :
    (id : Text) (n : ℕ) (ts : List Transaction) → below id n ts ≡ true → key_taken id n ts ≡ false
unfolding below key_taken
key_taken-below id n [] h = refl
key_taken-below id n (t ∷ ts) h = ground (arith, key_taken-below id n ts)

key_taken-append :
    (id : Text) (n : ℕ) (ts us : List Transaction)
    → key_taken id n (ts ++ us) ≡ (key_taken id n ts || key_taken id n us)
unfolding key_taken
key_taken-append id n [] us = refl
key_taken-append id n (t ∷ ts) us = ground (arith, key_taken-append id n ts us)

unique_keys-append :
    (ts : List Transaction) (t : Transaction)
    → unique_keys ts ≡ true
    → key_taken t.filing_id t.row_index ts ≡ false
    → unique_keys (ts ++ t ∷ []) ≡ true
unfolding unique_keys key_taken
unique_keys-append [] t u k = refl
unique_keys-append (s ∷ ts) t u k = ground (
  arith,
  unique_keys-append ts t,
  key_taken-append s.filing_id s.row_index ts (t ∷ []),
  text_eq_iff s.filing_id t.filing_id,
  text_eq_iff t.filing_id s.filing_id,
)

module _ (transaction_id_for : Text → ℕ → ℕ) where
  pub transaction_of-key :
      (id type : Text) (t : ParsedTransaction) (row : Transaction)
      → transaction_of transaction_id_for id t type ≡ some row
      → (row.filing_id ≡ id) × (row.row_index ≡ t.row_index)
  unfolding transaction_of
  transaction_of-key id type t row h =
      let (a, e, f) = >>=-eq-some (parse_iso_date t.expiry) _ h in
      let (b, g, k) = >>=-eq-some (parse_iso_date t.tx_date) _ f in
      let (c, l, m) = >>=-eq-some (parse_iso_date t.notification_date) _ k in
      let r = of_some m in (sym (ap (λ x. x.filing_id) r), sym (ap (λ x. x.row_index) r))

  -- The filing's own rows stay below the next index.
  below-add_transaction :
      (id : Text) (row : Transaction) (n : ℕ) (db : Db)
      → row.row_index ≡ n
      → below id n db.transactions ≡ true
      → below id (suc n) (add_transaction row db).transactions ≡ true
  unfolding add_transaction
  below-add_transaction id row n db e b =
      rw below-append (unfold below in ground (arith, below-suc id n db.transactions b))

  -- Rows that are numbered on from the filing's own keep the constraint.
  pub add_rows_unique :
      (id : Text) (n : ℕ) (ts : List ParsedTransaction) (db after : Db)
      → IndexedFrom n ts
      → below id n db.transactions ≡ true
      → unique_keys db.transactions ≡ true
      → add_rows transaction_id_for id ts db ≡ some after
      → unique_keys after.transactions ≡ true
  unfolding add_rows
  add_rows_unique id n [] db after x b u h = rw (sym (of_some h)) u
  add_rows_unique id n (t ∷ ts) db after x b u h = elim (Option-cases t.tx_type) [
    | inl e ↦
        add_rows_unique id (suc n) ts (add_issue id t db) after x.1
          (unfold add_issue in below-suc id n db.transactions b) (unfold add_issue in u) (rw e at h)
    | inr (type, e) ↦
        let (row, f, g) = >>=-eq-some (transaction_of transaction_id_for id t type) _ (rw e at h) in
        let (key, i) = transaction_of-key id type t row f in
        add_rows_unique id (suc n) ts (add_transaction row db) after x.1
          (below-add_transaction id row n db (i ∙ x.0) b)
          (unfold add_transaction in
            unique_keys-append db.transactions row u
              (rw (key, i ∙ x.0) (key_taken-below id n db.transactions b)))
          g
  ]

  -- What adding rows of one filing does to the rest.
  pub record Keeps (id : Text) (db after : Db) : Type 0 where
    pub filings : after.filings ≡ db.filings
    pub others :
        (other : Text)
        → text_eq id other ≡ false
        → below other 0 db.transactions ≡ true
        → below other 0 after.transactions ≡ true

  add_transaction-Keeps :
      (id : Text) (row : Transaction) (db : Db)
      → row.filing_id ≡ id
      → Keeps id db (add_transaction row db)
  unfolding add_transaction
  add_transaction-Keeps id row db e = record {
    filings = refl;
    others = λ other n h. rw below-append (unfold below in ground arith);
  }

  add_issue-Keeps : (id : Text) (t : ParsedTransaction) (db : Db) → Keeps id db (add_issue id t db)
  unfolding add_issue
  add_issue-Keeps id t db = record { filings = refl; others = λ other n h. h }

  Keeps-trans : (id : Text) (a b c : Db) → Keeps id a b → Keeps id b c → Keeps id a c
  Keeps-trans id a b c f g = record {
    filings = g.filings ∙ f.filings;
    others = λ other n h. g.others other n (f.others other n h);
  }

  pub add_rows-Keeps :
      (id : Text) (ts : List ParsedTransaction) (db after : Db)
      → add_rows transaction_id_for id ts db ≡ some after
      → Keeps id db after
  unfolding add_rows
  add_rows-Keeps id [] db after h =
      rw (sym (of_some h)) (record { filings = refl; others = λ other n h. h })
  add_rows-Keeps id (t ∷ ts) db after h = elim (Option-cases t.tx_type) [
    | inl e ↦
        Keeps-trans id db (add_issue id t db) after (add_issue-Keeps id t db)
          (add_rows-Keeps id ts (add_issue id t db) after (rw e at h))
    | inr (type, e) ↦
        let (row, f, g) = >>=-eq-some (transaction_of transaction_id_for id t type) _ (rw e at h) in
        let (key, i) = transaction_of-key id type t row f in
        Keeps-trans id db (add_transaction row db) after (add_transaction-Keeps id row db key)
          (add_rows-Keeps id ts (add_transaction row db) after g)
  ]
