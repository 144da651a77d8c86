-- ===== src/Ingest/Tickers/Instruments.antt =====
-- One instrument for each CIK, and one mapping for each of its tickers.
use evnt_trden_public.Base.{
  ℕ, ◌≡◌, refl, Bool, true, false, ◌&&◌, ◌||◌, not, Option, none, some, is_some, Option-cases,
  Bool-cases, inl, inr, List, [], ◌∷◌, ◌++◌, Text, text_eq, text_eq_iff, arith, ◌==◌,
}
use evnt_trden_public.Db.{Transaction, Db}
use evnt_trden_public.Parsers.TickerMatch.{SecCompany}
use evnt_trden_public.Ingest.Tickers.{
  Instrument, TickerMap, OverrideRow, Linking, names, find_instrument, has_mapping, flag,
  take_or_make, ensure_instrument, ensure_mapping, assign, use_company, resolve, link_batch,
  link_pending_transactions, fetch_pending,
}

-- No CIK stands on two instruments.
abbrev pub free_cik : Option Text → List Instrument → Bool
free_cik none is = true
free_cik (some cik) is = not (is_some (find_instrument cik is))

abbrev pub unique_ciks : List Instrument → Bool
unique_ciks [] = true
unique_ciks (i ∷ is) = free_cik i.cik is && unique_ciks is

-- No ticker is mapped to an instrument twice.
abbrev pub unique_mappings : List TickerMap → Bool
unique_mappings [] = true
unique_mappings (m ∷ ms) = not (has_mapping m.instrument_id m.ticker ms) && unique_mappings ms

find_instrument-append :
    (cik : Text) (is : List Instrument) (i : Instrument)
    → is_some (find_instrument cik (is ++ i ∷ []))
      ≡ (is_some (find_instrument cik is) || names cik i.cik)
unfolding find_instrument
find_instrument-append cik [] i = ground arith
find_instrument-append cik (j ∷ is) i = ground (arith, find_instrument-append cik is i)

names-some : (a b : Text) → names a (some b) ≡ text_eq b a
unfolding names
names-some a b = refl

unique_ciks-append :
    (is : List Instrument) (i : Instrument) (cik : Text)
    → i.cik ≡ some cik
    → unique_ciks is ≡ true
    → find_instrument cik is ≡ none
    → unique_ciks (is ++ i ∷ []) ≡ true
unfolding find_instrument
unique_ciks-append [] i cik e u h = ground (arith, e)
unique_ciks-append (j ∷ is) i cik e u h = elim (Option-cases j.cik) [
  | inl f ↦ ground (arith, e, f, unique_ciks-append is i cik e)
  | inr (other, f) ↦ ground (
    arith,
    e,
    f,
    unique_ciks-append is i cik e,
    find_instrument-append other is i,
    names-some other cik,
    names-some cik other,
    text_eq_iff other cik,
    text_eq_iff cik other,
  )
]

has_mapping-append :
    (id : ℕ) (ticker : Text) (ms : List TickerMap) (m : TickerMap)
    → has_mapping id ticker (ms ++ m ∷ [])
      ≡ (has_mapping id ticker ms || (m.instrument_id == id && text_eq m.ticker ticker))
unfolding has_mapping
has_mapping-append id ticker [] m = ground arith
has_mapping-append id ticker (n ∷ ms) m = ground (arith, has_mapping-append id ticker ms m)

unique_mappings-append :
    (ms : List TickerMap) (m : TickerMap)
    → unique_mappings ms ≡ true
    → has_mapping m.instrument_id m.ticker ms ≡ false
    → unique_mappings (ms ++ m ∷ []) ≡ true
unfolding has_mapping
unique_mappings-append [] m u h = refl
unique_mappings-append (n ∷ ms) m u h = ground (
  arith,
  unique_mappings-append ms m,
  has_mapping-append n.instrument_id n.ticker ms m,
  text_eq_iff m.ticker n.ticker,
  text_eq_iff n.ticker m.ticker,
)

-- The tables of instruments are as they must be.
pub record IsUnique (s : Linking) : Type 0 where
  pub ciks : unique_ciks s.instruments ≡ true
  pub mappings : unique_mappings s.ticker_map ≡ true

flag-IsUnique :
    (details : Text) (t : Transaction) (s : Linking) → IsUnique s → IsUnique (flag details t s)
unfolding flag
flag-IsUnique details t s u = record {
  ciks = ground (arith, u.ciks);
  mappings = ground (arith, u.mappings);
}

take_or_make-IsUnique :
    (new_id : List Instrument → ℕ) (c : SecCompany) (s : Linking) (o : Option ℕ)
    → find_instrument c.cik s.instruments ≡ o
    → IsUnique s
    → IsUnique (take_or_make new_id c s o).0
unfolding take_or_make
take_or_make-IsUnique new_id c s (some id) e u = u
take_or_make-IsUnique new_id c s none e u = record {
  ciks = unique_ciks-append s.instruments _ c.cik refl u.ciks e;
  mappings = u.mappings;
}

ensure_instrument-IsUnique :
    (new_id : List Instrument → ℕ) (c : SecCompany) (s : Linking)
    → IsUnique s
    → IsUnique (ensure_instrument new_id c s).0
unfolding ensure_instrument
ensure_instrument-IsUnique new_id c s u = take_or_make-IsUnique new_id c s _ refl u

ensure_mapping-IsUnique :
    (id : ℕ) (ticker : Text) (s : Linking) → IsUnique s → IsUnique (ensure_mapping id ticker s)
unfolding ensure_mapping
ensure_mapping-IsUnique id ticker s u = elim (Bool-cases (has_mapping id ticker s.ticker_map)) [
  | inl e ↦ rw e u
  | inr e ↦
      rw e (record { ciks = u.ciks; mappings = unique_mappings-append s.ticker_map _ u.mappings e })
]

assign-IsUnique :
    (id : ℕ) (ticker : Text) (t : Transaction) (s : Linking)
    → IsUnique s
    → IsUnique (assign id ticker t s)
unfolding assign
assign-IsUnique id ticker t s u = record { ciks = u.ciks; mappings = u.mappings }

module _ (token_sort_ratio : Text → Text → ℕ) (new_id : List Instrument → ℕ)
    (details : Transaction → Text) (companies : List SecCompany)
    (overrides : List OverrideRow) where
  use_company-IsUnique :
      (t : Transaction) (s : Linking) (c : Option SecCompany)
      → IsUnique s
      → IsUnique (use_company token_sort_ratio new_id details companies overrides t s c)
  unfolding use_company
  use_company-IsUnique t s none u = flag-IsUnique (details t) t s u
  use_company-IsUnique t s (some c) u =
      let (next, id) = ensure_instrument new_id c s in
      assign-IsUnique id c.ticker t (ensure_mapping id c.ticker next)
        (ensure_mapping-IsUnique id c.ticker next (ensure_instrument-IsUnique new_id c s u))

  link_batch-IsUnique :
      (ts : List Transaction) (s : Linking)
      → IsUnique s
      → IsUnique (link_batch token_sort_ratio new_id details companies overrides ts s)
  unfolding link_batch
  link_batch-IsUnique [] s u = u
  link_batch-IsUnique (t ∷ ts) s u =
      let c = resolve token_sort_ratio new_id details companies overrides t in
      link_batch-IsUnique ts (use_company token_sort_ratio new_id details companies overrides t s c)
        (use_company-IsUnique t s c u)

  -- A run of the ticker step leaves one instrument for each CIK and one mapping for each ticker of an
  -- instrument, if there was one before, whatever the matches and the keys of new instruments.
  pub link_pending_transactions-IsUnique :
      (batch_size : ℕ) (db : Db) (instruments : List Instrument) (ticker_map : List TickerMap)
      → unique_ciks instruments ≡ true
      → unique_mappings ticker_map ≡ true
      → IsUnique (
          link_pending_transactions token_sort_ratio new_id details companies overrides batch_size
            db instruments ticker_map)
  unfolding link_pending_transactions
  link_pending_transactions-IsUnique batch_size db instruments ticker_map u v =
      link_batch-IsUnique (fetch_pending batch_size db) _ (record { ciks = u; mappings = v })
