-- ===== src/Parsers/HousePtr/Parse/Contract.antt =====
-- What every transaction of a report satisfies.
use mathlib.Core.List.{foldl}
use evnt_trden_public.Base.{
  ℕ, ◌≡◌, refl, Bool, true, false, Option, none, some, is_some, List, [], ◌∷◌, All, Text, codes,
  arith, ◌==◌, text_eq, one_of, upper, dict_get, ◌≤ℤ◌, Bool-cases, inl, inr, is_lower, is_upper,
  lower_code, foldl-keeps, All-map, >>=-eq-some, of_some, sym,
}
use evnt_trden_public.Base.Regex.{match_start}
use evnt_trden_public.Parsers.HousePtr.{
  Word, ColumnBounds, ParsedTransaction, owner_codes, tx_type_codes,
}
use evnt_trden_public.Parsers.HousePtr.Patterns.{tx_type_re, is_match}
use evnt_trden_public.Parsers.HousePtr.Row.{
  OpenRecord, matches, new_record, place_word, from_line, extend, extend_word,
  add_description_words, describe_word, finalize, tx_type_of, owner_of,
}
use evnt_trden_public.Parsers.HousePtr.Parse.{
  is_start_word, line_starts_transaction, start, flush, run_pages, parse_ptr_transactions,
}
use evnt_trden_public.Parsers.HousePtr.Parse.Invariant.{results-All}
use evnt_trden_public.Parsers.HousePtr.Columns.{detect_column_bounds}
use evnt_trden_public.Parsers.HousePtr.Lines.{group_lines}
use evnt_trden_public.Parsers.HousePtr.Lines.Groups.{group_lines-All}
use evnt_trden_public.Parsers.HousePtr.Row.Fields.{finalize-tx_type, finalize-owner}

abbrev IsTypeCode : Text → Type 0
IsTypeCode t = is_some (dict_get t tx_type_codes) ≡ true

abbrev known_owner : Option Text → Bool
known_owner none = true
known_owner (some t) = is_match (dict_get t owner_codes)

abbrev KnownOwner : Option Text → Type 0
KnownOwner o = known_owner o ≡ true

abbrev pub NoNewline : Text → Type 0
NoNewline = All (λ c. (c == 10) ≡ false)

-- The zone of the transaction type stands right of the zones before it.
pub record Ordered (b : ColumnBounds) : Type 0 where
  pub id_first : b.id_max_x ≤ℤ b.asset_max_x
  pub owner_first : b.owner_max_x ≤ℤ b.asset_max_x

tx_type_re-IsTypeCode :
    (t : Text) → NoNewline t → matches tx_type_re t ≡ true → IsTypeCode (upper t)
unfolding matches match_start upper dict_get text_eq lower_code is_upper is_lower
tx_type_re-IsTypeCode [] n h = h
tx_type_re-IsTypeCode (c ∷ []) n h = ground arith
tx_type_re-IsTypeCode (c ∷ d ∷ []) n h = absurd (ground arith)
tx_type_re-IsTypeCode (c ∷ d ∷ e ∷ t) n h = absurd (ground arith)

-- A record whose transaction type and owner are codes of the form.
record IsCoded (r : OpenRecord) : Type 0 where
  type_code : IsTypeCode r.tx_type_raw
  owner : KnownOwner r.owner_word

place_word-KnownOwner :
    (b : ColumnBounds) (r : OpenRecord) (w : Word)
    → KnownOwner r.owner_word
    → KnownOwner (place_word b r w).owner_word
unfolding place_word
place_word-KnownOwner b r w h = ground arith

place_word-IsTypeCode :
    (b : ColumnBounds) (r : OpenRecord) (w : Word)
    → NoNewline w.text
    → IsTypeCode r.tx_type_raw
    → IsTypeCode (place_word b r w).tx_type_raw
unfolding place_word
place_word-IsTypeCode b r w n h = ground (arith, tx_type_re-IsTypeCode w.text n)

-- The word by which a line starts a transaction sets its type.
place_word-sets_type :
    (b : ColumnBounds) (r : OpenRecord) (w : Word)
    → Ordered b
    → NoNewline w.text
    → is_start_word b w ≡ true
    → IsTypeCode (place_word b r w).tx_type_raw
unfolding place_word is_start_word
place_word-sets_type b r w o n h = ground (arith, tx_type_re-IsTypeCode w.text n)

place_line-IsTypeCode :
    (b : ColumnBounds) (line : List Word) (r : OpenRecord)
    → All (λ w. NoNewline w.text) line
    → IsTypeCode r.tx_type_raw
    → IsTypeCode (foldl (place_word b) r line).tx_type_raw
place_line-IsTypeCode b [] r n h = h
place_line-IsTypeCode b (w ∷ line) r n h =
    place_line-IsTypeCode b line (place_word b r w) n.1 (place_word-IsTypeCode b r w n.0 h)

-- `from_line` over a line that starts a transaction, from any record.
place_line-sets_type :
    (b : ColumnBounds) (line : List Word) (r : OpenRecord)
    → Ordered b
    → All (λ w. NoNewline w.text) line
    → line_starts_transaction b line ≡ true
    → IsTypeCode (foldl (place_word b) r line).tx_type_raw
unfolding line_starts_transaction
place_line-sets_type b [] r o n h = absurd (ground arith)
place_line-sets_type b (w ∷ line) r o n h = elim (Bool-cases (is_start_word b w)) [
  | inl e ↦ place_line-IsTypeCode b line (place_word b r w) n.1 (place_word-sets_type b r w o n.0 e)
  | inr e ↦ place_line-sets_type b line (place_word b r w) o n.1 (rw e at h)
]

from_line-IsCoded :
    (b : ColumnBounds) (line : List Word)
    → Ordered b
    → All (λ w. NoNewline w.text) line
    → line_starts_transaction b line ≡ true
    → IsCoded (from_line b line)
unfolding from_line
from_line-IsCoded b line o n h = record {
  type_code = place_line-sets_type b line new_record o n h;
  owner =
      foldl-keeps (λ r. KnownOwner r.owner_word) (place_word b) (place_word-KnownOwner b) line
        new_record refl;
}

extend-IsCoded :
    (b : ColumnBounds) (r : OpenRecord) (line : List Word) → IsCoded r → IsCoded (extend b r line)
unfolding extend
extend-IsCoded b r line h = foldl-keeps IsCoded (extend_word b) one_word line r h
  where
    one_word : (s : OpenRecord) (w : Word) → IsCoded s → IsCoded (extend_word b s w)
    one_word s w v = record { type_code = ground arith; owner = ground arith }

describe-IsCoded :
    (r : OpenRecord) (line : List Word) → IsCoded r → IsCoded (add_description_words r line)
unfolding add_description_words
describe-IsCoded r line h = foldl-keeps IsCoded describe_word one_word line r h
  where
    one_word : (s : OpenRecord) (w : Word) → IsCoded s → IsCoded (describe_word s w)
    one_word s w v = record { type_code = ground arith; owner = ground arith }

abbrev tx_types : List Text
tx_types = codes "purchase" ∷ codes "sale_full" ∷ codes "sale_partial" ∷ codes "exchange" ∷ []

abbrev owners : List Text
owners = codes "self" ∷ codes "spouse" ∷ codes "joint" ∷ codes "child" ∷ []

abbrev holds_one : List Text → Option Text → Bool
holds_one ts none = false
holds_one ts (some t) = one_of ts t

-- The values that the database's columns allow.
pub record IsWellFormed (t : ParsedTransaction) : Type 0 where
  pub tx_type : holds_one tx_types t.tx_type ≡ true
  pub owner : holds_one owners t.owner ≡ true

tx_type_of-known :
    (raw : Text) (partial : Bool)
    → IsTypeCode raw
    → holds_one tx_types (tx_type_of raw partial) ≡ true
unfolding tx_type_of one_of text_eq
tx_type_of-known raw partial h = ground arith

owner_of-known : (o : Option Text) → KnownOwner o → holds_one owners (owner_of o) ≡ true
unfolding owner_of one_of text_eq
owner_of-known none h = refl
owner_of-known (some w) h = ground arith

finalize-IsWellFormed :
    (r : OpenRecord) (i : ℕ) (t : ParsedTransaction)
    → IsCoded r
    → finalize r i ≡ some t
    → IsWellFormed t
finalize-IsWellFormed r i t c h = record {
  tx_type = rw (finalize-tx_type r i h) (tx_type_of-known r.tx_type_raw r.is_partial c.type_code);
  owner = rw (finalize-owner r i h) (owner_of-known r.owner_word c.owner);
}

-- In a report whose columns are in order and whose words hold no newline, every transaction has one
-- of the four transaction types and one of the four owners.
pub parse_ptr_transactions-IsWellFormed :
    (pages : List (List Word)) (ts : List ParsedTransaction)
    → Ordered (detect_column_bounds pages)
    → All (All (λ w. NoNewline w.text)) pages
    → parse_ptr_transactions pages ≡ some ts
    → All IsWellFormed ts
unfolding parse_ptr_transactions
parse_ptr_transactions-IsWellFormed pages ts o n h =
    let b = detect_column_bounds pages in
    let (s, e, f) = >>=-eq-some (run_pages b pages start) _ h in
    let (t, g, k) = >>=-eq-some (flush s) _ f in
    rw (sym (of_some k)) (
      results-All b (All (λ w. NoNewline w.text)) IsCoded IsWellFormed
        (λ line m l. from_line-IsCoded b line o m l) (extend-IsCoded b) describe-IsCoded
        finalize-IsWellFormed pages s t
        (All-map (All (λ w. NoNewline w.text))
          (λ words. All (All (λ w. NoNewline w.text)) (group_lines words))
          (λ words m. group_lines-All (λ w. NoNewline w.text) words m) pages n)
        e g)
