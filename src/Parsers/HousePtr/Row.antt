-- ===== src/Parsers/HousePtr/Row.antt =====
-- `_OpenRecord`: a transaction that is being read, line by line.
pub mod Fields
use mathlib.Core.List.{foldl}
use evnt_trden_public.Base.{
  ℕ, leb_ℤ, ltb_ℤ, Bool, true, false, ◌&&◌, Option, none, some, ◌>>=◌, List, [], ◌∷◌, ◌++◌,
  if◌then◌else◌, Text, codes, text_eq, upper, lower, strip, is_empty, join, has_code, rstrip_code,
  dict_get,
}
use evnt_trden_public.Base.Regex.{Regex, match_start, find_match, group_of}
use evnt_trden_public.Parsers.Amounts.{parse_amount_range}
use evnt_trden_public.Parsers.HousePtr.{
  Word, ColumnBounds, ParsedTransaction, owner_codes, tx_type_codes,
}
use evnt_trden_public.Parsers.HousePtr.Patterns.{
  date_re, tx_type_re, ticker_type_re, type_only_re, ticker_only_re, is_match, to_iso_date,
  OptionDetails, parse_option_details,
}

pub record OpenRecord : Type 0 where
  pub id_word : Option Text
  pub owner_word : Option Text
  pub asset_parts : List Text
  pub tx_type_raw : Text
  pub is_partial : Bool
  pub tx_date : Text
  pub notif_date : Text
  pub amount_parts : List Text
  pub description_parts : List Text

unfoldable pub matches : Regex → Text → Bool
matches r t = is_match (match_start r t)

abbrev pub new_record : OpenRecord
new_record = record {
  id_word = none;
  owner_word = none;
  asset_parts = [];
  tx_type_raw = [];
  is_partial = false;
  tx_date = [];
  notif_date = [];
  amount_parts = [];
  description_parts = [];
}

-- One word of `from_line`, in the first zone whose boundary it stands before.
unfoldable pub place_word : ColumnBounds → OpenRecord → Word → OpenRecord
place_word bounds r w =
    if ltb_ℤ w.x0 bounds.id_max_x
    then record r { id_word = some w.text }
    else if ltb_ℤ w.x0 bounds.owner_max_x
    then (if is_match (dict_get (upper w.text) owner_codes)
        then record r { owner_word = some (upper w.text) }
        else r)
    else if ltb_ℤ w.x0 bounds.asset_max_x
    then record r { asset_parts = r.asset_parts ++ w.text ∷ [] }
    else if ltb_ℤ w.x0 bounds.tx_type_max_x
    then (if matches tx_type_re w.text
        then record r { tx_type_raw = upper w.text }
        else if text_eq (lower w.text) (codes "(partial)")
        then record r { is_partial = true }
        else r)
    else if ltb_ℤ w.x0 bounds.tx_date_max_x
    then (if matches date_re w.text then record r { tx_date = w.text } else r)
    else if ltb_ℤ w.x0 bounds.notif_date_max_x
    then (if matches date_re w.text then record r { notif_date = w.text } else r)
    else if ltb_ℤ w.x0 bounds.amount_max_x
    then record r { amount_parts = r.amount_parts ++ w.text ∷ [] }
    else r

unfoldable pub from_line : ColumnBounds → List Word → OpenRecord
unfolding place_word
from_line bounds line = foldl (place_word bounds) new_record line

unfoldable pub extend_word : ColumnBounds → OpenRecord → Word → OpenRecord
extend_word bounds r w =
    if leb_ℤ bounds.owner_max_x w.x0 && ltb_ℤ w.x0 bounds.asset_max_x
    then record r { asset_parts = r.asset_parts ++ w.text ∷ [] }
    else if leb_ℤ bounds.notif_date_max_x w.x0 && ltb_ℤ w.x0 bounds.amount_max_x
    then record r { amount_parts = r.amount_parts ++ w.text ∷ [] }
    else r

unfoldable pub extend : ColumnBounds → OpenRecord → List Word → OpenRecord
unfolding extend_word
extend bounds r line = foldl (extend_word bounds) r line

-- The label word itself is no content, in either style.
unfoldable pub describe_word : OpenRecord → Word → OpenRecord
describe_word r w =
    if has_code 0 w.text
    then r
    else if text_eq (lower (rstrip_code b':' w.text)) (codes "description")
    then r
    else record r { description_parts = r.description_parts ++ w.text ∷ [] }

unfoldable pub add_description_words : OpenRecord → List Word → OpenRecord
unfolding describe_word
add_description_words r line = foldl describe_word r line

-- The ticker and the asset type at the end of a description.
pub record Asset : Type 0 where
  pub ticker : Option Text
  pub asset_type : Option Text

unfoldable pub classify_asset : Text → Asset
classify_asset description = elim (find_match ticker_type_re description) [
  | some m ↦ record {
    ticker = some (upper (group_of 1 m));
    asset_type = some (upper (group_of 2 m));
  }
  | none ↦ elim (find_match type_only_re description) [
    | some m ↦ record { ticker = none; asset_type = some (upper (group_of 1 m)) }
    | none ↦ elim (find_match ticker_only_re description) [
      | some m ↦ record { ticker = some (upper (group_of 1 m)); asset_type = none }
      | none ↦ record { ticker = none; asset_type = none }
    ]
  ]
]

-- `_OWNER_CODES[self.owner_word] if self.owner_word else "self"`; `none` is the `KeyError`.
unfoldable pub owner_of : Option Text → Option Text
unfolding dict_get
owner_of none = some (codes "self")
owner_of (some word) = if is_empty word then some (codes "self") else dict_get word owner_codes

-- A sale with the mark "(partial)" is a partial one.
unfoldable pub tx_type_of : Text → Bool → Option Text
unfolding dict_get
tx_type_of raw partial = elim (dict_get raw tx_type_codes) [
  | none ↦ none
  | some t ↦
      if text_eq t (codes "sale_full") && partial then some (codes "sale_partial") else some t
]

no_details : OptionDetails
no_details = record { option_type = none; strike = none; expiry = none }

-- Only an option row (asset type "OP") has its description read.
unfoldable pub details_of : Option Text → List Text → Option OptionDetails
unfolding no_details
details_of none parts = some no_details
details_of (some t) parts =
    if text_eq t (codes "OP")
    then parse_option_details (join (b' ' ∷ []) parts)
    else some no_details

-- `_to_iso_date(raw) if raw else None`
unfoldable pub iso_or_none : Text → Option (Option Text)
iso_or_none raw = if is_empty raw then some none else (do iso ← to_iso_date raw; some (some iso))

-- `none` is an exception.
unfoldable pub finalize : OpenRecord → ℕ → Option ParsedTransaction
finalize r row_index = do
  owner ← owner_of r.owner_word
  let description = strip (join (b' ' ∷ []) r.asset_parts)
  let asset = classify_asset description
  details ← details_of asset.asset_type r.description_parts
  let amounts = parse_amount_range (join (b' ' ∷ []) r.amount_parts)
  tx_date ← iso_or_none r.tx_date
  notification_date ← iso_or_none r.notif_date
  some (record {
    row_index = row_index;
    owner = some owner;
    asset_description_raw = description;
    ticker = asset.ticker;
    asset_type = asset.asset_type;
    option_type = details.option_type;
    strike = details.strike;
    expiry = details.expiry;
    tx_type = tx_type_of r.tx_type_raw r.is_partial;
    tx_date = tx_date;
    notification_date = notification_date;
    amount_min = amounts.0;
    amount_max = amounts.1;
    source_transaction_id = r.id_word;
  })
