-- ===== src/Ingest/Tickers/Settled.antt =====
-- Each transaction of a batch is linked or flagged.
use evnt_trden_public.Base.{
  ℕ, ◌≡◌, refl, ap, ◌∙◌, Bool, true, ◌||◌, Option, none, some, is_some, Bool-cases, inl, inr, List,
  [], ◌∷◌, ◌++◌, any, if◌then◌else◌, Text, text_eq_refl, codes, arith, ◌==◌,
}
use evnt_trden_public.Db.{Transaction, Db, DqIssue}
use evnt_trden_public.Parsers.TickerMatch.{SecCompany}
use evnt_trden_public.Ingest.Tickers.{
  Instrument, TickerMap, OverrideRow, Linking, is_unmatched_issue, is_flagged, update_transaction,
  set_instrument, flag, take_or_make, ensure_instrument, ensure_mapping, assign, use_company,
  resolve, link_batch, link_pending_transactions, fetch_pending, find_instrument,
}

unfoldable pub get_transaction : ℕ → List Transaction → Option Transaction
get_transaction id [] = none
get_transaction id (t ∷ ts) = if t.transaction_id == id then some t else get_transaction id ts

abbrev has_instrument : Option Transaction → Bool
has_instrument none = true
has_instrument (some t) = is_some t.instrument_id

-- A transaction that has its instrument (or is gone), or that is flagged.
unfoldable pub settled : ℕ → Db → Bool
settled id db = has_instrument (get_transaction id db.transactions) || is_flagged db.dq_issues id

get_transaction-update :
    (id other new : ℕ) (ticker : Text) (ts : List Transaction)
    → has_instrument (get_transaction other (update_transaction id (set_instrument new ticker) ts))
      ≡ (has_instrument (get_transaction other ts) || id == other)
unfolding get_transaction update_transaction set_instrument
get_transaction-update id other new ticker [] = ground arith
get_transaction-update id other new ticker (t ∷ ts) =
    ground (arith, get_transaction-update id other new ticker ts)

is_flagged-append :
    (issues more : List DqIssue) (id : ℕ)
    → is_flagged (issues ++ more) id ≡ (is_flagged issues id || is_flagged more id)
unfolding is_flagged
is_flagged-append [] more id = refl
is_flagged-append (issue ∷ issues) more id = ground (arith, is_flagged-append issues more id)

assign-settled :
    (id : ℕ) (ticker : Text) (t : Transaction) (s : Linking) (other : ℕ)
    → settled other (assign id ticker t s).db ≡ (settled other s.db || t.transaction_id == other)
unfolding settled assign
assign-settled id ticker t s other =
    ground (arith, get_transaction-update t.transaction_id other id ticker s.db.transactions)

flag-settled :
    (details : Text) (t : Transaction) (s : Linking) (other : ℕ)
    → settled other (flag details t s).db ≡ (settled other s.db || t.transaction_id == other)
unfolding flag settled
flag-settled details t s other = elim (Bool-cases (is_flagged s.db.dq_issues t.transaction_id)) [
  | inl e ↦ ground (arith, e)
  | inr e ↦
      rw (e, is_flagged-append)
        (unfold is_flagged is_unmatched_issue in
          ground (arith, text_eq_refl (codes "ticker_match_unmatched")))
]

take_or_make-db :
    (new_id : List Instrument → ℕ) (c : SecCompany) (s : Linking) (o : Option ℕ)
    → (take_or_make new_id c s o).0.db ≡ s.db
unfolding take_or_make
take_or_make-db new_id c s none = refl
take_or_make-db new_id c s (some id) = refl

ensure-db :
    (new_id : List Instrument → ℕ) (c : SecCompany) (id : ℕ) (s : Linking)
    → (ensure_mapping id c.ticker (ensure_instrument new_id c s).0).db ≡ s.db
unfolding ensure_mapping ensure_instrument
ensure-db new_id c id s =
    ground (arith, take_or_make-db new_id c s (find_instrument c.cik s.instruments))

module _ (token_sort_ratio : Text → Text → ℕ) (new_id : List Instrument → ℕ)
    (details : Transaction → Text) (companies : List SecCompany)
    (overrides : List OverrideRow) where
  use_company-settled :
      (t : Transaction) (s : Linking) (c : Option SecCompany) (other : ℕ)
      → settled other (use_company token_sort_ratio new_id details companies overrides t s c).db
        ≡ (settled other s.db || t.transaction_id == other)
  unfolding use_company
  use_company-settled t s none other = flag-settled (details t) t s other
  use_company-settled t s (some c) other =
      let (next, id) = ensure_instrument new_id c s in
      assign-settled id c.ticker t (ensure_mapping id c.ticker next) other
      ∙ ap (λ db. settled other db || t.transaction_id == other) (ensure-db new_id c id s)

  link_batch-settled :
      (ts : List Transaction) (s : Linking) (other : ℕ)
      → settled other (link_batch token_sort_ratio new_id details companies overrides ts s).db
        ≡ (settled other s.db || any (λ t. t.transaction_id == other) ts)
  unfolding link_batch
  link_batch-settled [] s other = ground arith
  link_batch-settled (t ∷ ts) s other =
      let c = resolve token_sort_ratio new_id details companies overrides t in
      ground (
        arith,
        link_batch-settled ts
            (use_company token_sort_ratio new_id details companies overrides t s c) other,
        use_company-settled t s c other,
      )

  -- After a run of the ticker step the transactions that are linked or carry an open issue are those that
  -- were or did before, and those of the batch: none of the batch is left without either.
  pub link_pending_transactions-settled :
      (batch_size : ℕ) (db : Db) (instruments : List Instrument) (ticker_map : List TickerMap)
      (id : ℕ)
      → settled id
          (link_pending_transactions token_sort_ratio new_id details companies overrides batch_size
            db instruments ticker_map).db
        ≡ (settled id db || any (λ t. t.transaction_id == id) (fetch_pending batch_size db))
  unfolding link_pending_transactions
  link_pending_transactions-settled batch_size db instruments ticker_map id =
      link_batch-settled (fetch_pending batch_size db) _ id
