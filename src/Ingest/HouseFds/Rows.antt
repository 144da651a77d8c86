-- ===== src/Ingest/HouseFds/Rows.antt =====
-- The rows that `_save_holdings` adds never break the constraint on (filing_id, row_index), if the
-- filing has none yet.
use evnt_trden_public.Base.{
  ℕ, suc, ◌<◌, ◌≡◌, refl, Bool, true, false, ◌||◌, Option, List, [], ◌∷◌, ◌++◌, map, range_from,
  length, Text, text_eq, text_eq_iff, arith,
}
use evnt_trden_public.Parsers.HouseFd.Row.{ParsedHolding}
use evnt_trden_public.Ingest.HouseFds.{Holding, holding_of, key_taken, unique_keys}

-- Some row is of this filing.
unfoldable pub has_rows : Text → List Holding → Bool
has_rows id [] = false
has_rows id (h ∷ hs) = text_eq h.filing_id id || has_rows id hs

pub has_rows-append :
    (id : Text) (hs ks : List Holding) → has_rows id (hs ++ ks) ≡ (has_rows id hs || has_rows id ks)
unfolding has_rows
has_rows-append id [] ks = refl
has_rows-append id (h ∷ hs) ks = ground (arith, has_rows-append id hs ks)

-- A report's rows are of its filing only.
pub has_rows-holding_of :
    (id other : Text) (year : Option ℕ) (hs : List ParsedHolding)
    → text_eq id other ≡ false
    → has_rows other (map (holding_of id year) hs) ≡ false
unfolding has_rows holding_of
has_rows-holding_of id other year [] ne = refl
has_rows-holding_of id other year (h ∷ hs) ne =
    ground (arith, has_rows-holding_of id other year hs ne)

key_taken-append :
    (id : Text) (i : ℕ) (hs ks : List Holding)
    → key_taken id i (hs ++ ks) ≡ (key_taken id i hs || key_taken id i ks)
unfolding key_taken
key_taken-append id i [] ks = refl
key_taken-append id i (h ∷ hs) ks = ground (arith, key_taken-append id i hs ks)

key_taken-has_rows :
    (id : Text) (i : ℕ) (hs : List Holding) → has_rows id hs ≡ false → key_taken id i hs ≡ false
unfolding key_taken has_rows
key_taken-has_rows id i [] h = refl
key_taken-has_rows id i (k ∷ hs) h = ground (arith, key_taken-has_rows id i hs)

-- Rows that are numbered from `n` have no number below it.
key_taken-numbered :
    (id : Text) (year : Option ℕ) (i n : ℕ) (hs : List ParsedHolding)
    → i < n
    → map (λ h. h.row_index) hs ≡ range_from n (length hs)
    → key_taken id i (map (holding_of id year) hs) ≡ false
unfolding key_taken holding_of
key_taken-numbered id year i n [] lt h = refl
key_taken-numbered id year i n (k ∷ hs) lt h =
    ground (arith, key_taken-numbered id year i (suc n) hs)

unique_keys-numbered :
    (id : Text) (year : Option ℕ) (n : ℕ) (hs : List ParsedHolding)
    → map (λ h. h.row_index) hs ≡ range_from n (length hs)
    → unique_keys (map (holding_of id year) hs) ≡ true
unfolding unique_keys holding_of
unique_keys-numbered id year n [] h = refl
unique_keys-numbered id year n (k ∷ hs) h = ground (
  arith,
  key_taken-numbered id year k.row_index (suc n) hs,
  unique_keys-numbered id year (suc n) hs,
)

pub unique_keys-append :
    (id : Text) (year : Option ℕ) (hs : List Holding) (new : List ParsedHolding)
    → unique_keys hs ≡ true
    → has_rows id hs ≡ false
    → map (λ h. h.row_index) new ≡ range_from 0 (length new)
    → unique_keys (hs ++ map (holding_of id year) new) ≡ true
unfolding unique_keys has_rows
unique_keys-append id year [] new u fresh h = unique_keys-numbered id year 0 new h
unique_keys-append id year (k ∷ hs) new u fresh h = ground (
  arith,
  unique_keys-append id year hs new,
  key_taken-append k.filing_id k.row_index hs (map (holding_of id year) new),
  key_taken-has_rows k.filing_id k.row_index (map (holding_of id year) new),
  has_rows-holding_of id k.filing_id year new,
  text_eq_iff k.filing_id id,
  text_eq_iff id k.filing_id,
)
