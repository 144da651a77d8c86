-- ===== src/Parsers/HousePtr.antt =====
-- src/congress_collector/parsers/house_ptr.py: House periodic transaction reports. Coordinates are
-- integers, in thousandths of a point.
pub mod Lines
pub mod Columns
pub mod Patterns
pub mod Row
pub mod Parse
use evnt_trden_public.Base.{ℕ, ℤ, pos, Option, List, [], ◌∷◌, Text, codes}
use evnt_trden_public.Base.Float.{Float}

pub record Word : Type 0 where
  pub text : Text
  pub x0 : ℤ
  pub top : ℤ

-- Zone boundaries of one document: a word's zone is from the previous boundary up to this one.
pub record ColumnBounds : Type 0 where
  pub id_max_x : ℤ
  pub owner_max_x : ℤ
  pub asset_max_x : ℤ
  pub tx_type_max_x : ℤ
  pub tx_date_max_x : ℤ
  pub notif_date_max_x : ℤ
  pub amount_max_x : ℤ

abbrev pub default_column_bounds : ColumnBounds
default_column_bounds = record {
  id_max_x = pos 55000;
  owner_max_x = pos 100000;
  asset_max_x = pos 260000;
  tx_type_max_x = pos 325000;
  tx_date_max_x = pos 380000;
  notif_date_max_x = pos 445000;
  amount_max_x = pos 524000;
}

abbrev pub row_tolerance : ℕ
row_tolerance = 3000

abbrev pub column_margin : ℤ
column_margin = pos 3000

abbrev pub owner_codes : List (Text × Text)
owner_codes =
    (codes "SP", codes "spouse") ∷ (codes "JT", codes "joint") ∷ (codes "DC", codes "child") ∷ []

abbrev pub tx_type_codes : List (Text × Text)
tx_type_codes =
    (codes "P", codes "purchase")
    ∷ (codes "S", codes "sale_full")
    ∷ (codes "E", codes "exchange")
    ∷ []

abbrev pub annotation_labels : List Text
annotation_labels =
    codes "filing" ∷ codes "subholding" ∷ codes "description" ∷ codes "location" ∷ []

abbrev pub footer_marker : Text
footer_marker = codes "For the complete list of asset type abbreviations"

pub record ParsedTransaction : Type 0 where
  pub row_index : ℕ
  pub owner : Option Text
  pub asset_description_raw : Text
  pub ticker : Option Text
  pub asset_type : Option Text
  pub option_type : Option Text
  pub strike : Option Float
  pub expiry : Option Text
  pub tx_type : Option Text
  pub tx_date : Option Text
  pub notification_date : Option Text
  pub amount_min : Option Float
  pub amount_max : Option Float
  pub source_transaction_id : Option Text
