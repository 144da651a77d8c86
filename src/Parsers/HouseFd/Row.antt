-- ===== src/Parsers/HouseFd/Row.antt =====
-- `_Row`: a holding that is being read, line by line.
use evnt_trden_public.Base.{
  ℕ, Bool, false, Option, none, List, [], ◌∷◌, Text, codes, strip, join, ends_with, non_empty,
  value_or, dict_get,
}
use evnt_trden_public.Base.Float.{Float}
use evnt_trden_public.Parsers.Amounts.{parse_amount_range}
use evnt_trden_public.Parsers.HousePtr.{owner_codes}
use evnt_trden_public.Parsers.HousePtr.Row.{classify_asset}

pub record ParsedHolding : Type 0 where
  pub row_index : ℕ
  pub owner : Text
  pub asset_description_raw : Text
  pub ticker : Option Text
  pub asset_type : Option Text
  pub value_raw : Text
  pub value_min : Option Float
  pub value_max : Option Float
  pub income_type : Option Text
  pub income_raw : Option Text

pub record FdRow : Type 0 where
  pub asset : List Text
  pub owner : Option Text
  pub value : List Text
  pub income_type : List Text
  pub income : List Text

abbrev pub empty_row : FdRow
empty_row = record { asset = []; owner = none; value = []; income_type = []; income = [] }

last_is_open : List Text → Bool
last_is_open [] = false
last_is_open (t ∷ []) = ends_with t (codes "-")
last_is_open (t ∷ u ∷ ts) = last_is_open (u ∷ ts)

-- A value band that wraps: "$100,001 -" awaits "$250,000".
unfoldable pub value_open : FdRow → Bool
unfolding last_is_open
value_open r = last_is_open r.value

unfoldable pub joined : List Text → Text
joined parts = strip (join (b' ' ∷ []) parts)

-- `_OWNER_CODES.get(self.owner or "", "self")`
unfoldable pub holder : Option Text → Text
unfolding dict_get
holder owner = value_or (codes "self") (dict_get (value_or [] owner) owner_codes)

unfoldable pub finalize : FdRow → ℕ → ParsedHolding
finalize r row_index =
    let description = joined r.asset in
    let asset = classify_asset description in
    let value_raw = joined r.value in
    let amounts = parse_amount_range value_raw in
    record {
      row_index = row_index;
      owner = holder r.owner;
      asset_description_raw = description;
      ticker = asset.ticker;
      asset_type = asset.asset_type;
      value_raw = value_raw;
      value_min = amounts.0;
      value_max = amounts.1;
      income_type = non_empty (joined r.income_type);
      income_raw = non_empty (joined r.income);
    }
