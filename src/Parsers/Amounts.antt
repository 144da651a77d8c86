-- ===== src/Parsers/Amounts.antt =====
-- src/congress_collector/parsers/amounts.py: the value bands of both sites.
pub mod Bands
use evnt_trden_public.Base.{
  Bool, Option, none, some, [], ◌∷◌, if◌then◌else◌, Text, codes, is_empty, lower, strip,
  starts_with, has_code, remove_code, split_once,
}
use evnt_trden_public.Base.Float.{Float, float}

number_of : Text → Option Float
number_of cleaned = if is_empty cleaned then none else float cleaned

unfoldable pub to_number : Text → Option Float
unfolding number_of
to_number raw = number_of (strip (remove_code b',' (remove_code b'$' raw)))

-- "Over $50,000,000"
over_amount : Option (Text × Text) → Option Float × Option Float
over_amount none = (none, none)
over_amount (some (_, after)) = (to_number after, none)

-- "$1,001 - $15,000"
both_amounts : Option (Text × Text) → Option Float × Option Float
both_amounts none = (none, none)
both_amounts (some (low, high)) = (to_number low, to_number high)

range_of : Text → Option Float × Option Float
unfolding over_amount both_amounts
range_of raw =
    if is_empty raw
    then (none, none)
    else if starts_with (lower raw) (codes "over")
    then over_amount (split_once b'$' raw)
    else if has_code b'-' raw
    then both_amounts (split_once b'-' raw)
    else (none, none)

unfoldable pub parse_amount_range : Text → Option Float × Option Float
unfolding range_of
parse_amount_range raw = range_of (strip raw)
