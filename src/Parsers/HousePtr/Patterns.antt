-- ===== src/Parsers/HousePtr/Patterns.antt =====
-- The regular expressions of house_ptr.py, its dates and its option details.
use evnt_trden_public.Base.{
  ℕ, Bool, true, ◌&&◌, ◌||◌, Option, none, some, ◌>>=◌, [], ◌∷◌, ◌++◌, ◌==◌, if◌then◌else◌, Text,
  codes, is_digit, is_upper, is_lower, is_space, is_empty, lower, split_once, remove_code,
  rstrip_code,
}
use evnt_trden_public.Base.Float.{Float, float}
use evnt_trden_public.Base.Regex.{
  Regex, Class, nothing, one, rep, lazy, either, group, ends, edge, ◌⊙◌, any_case, is_code,
  optional, star, plus, word_any_case, find_match, group_of,
}

abbrev is_letter : Class
is_letter c = is_upper c || is_lower c

-- `[A-Za-z0-9.\-/]`
abbrev pub is_ticker_code : Class
is_ticker_code c = is_letter c || is_digit c || c == b'.' || c == b'-' || c == b'/'

abbrev pub date_digits : ℕ → ℕ → Regex
date_digits lo hi = rep is_digit lo (some hi)

-- `^\d{1,2}/\d{1,2}/\d{4}$`
abbrev pub date_re : Regex
date_re =
    date_digits 1 2
    ⊙ one (is_code b'/')
    ⊙ date_digits 1 2
    ⊙ one (is_code b'/')
    ⊙ date_digits 4 4
    ⊙ ends

-- `^(P|S|E)$`, in any case
abbrev pub tx_type_re : Regex
tx_type_re = one (any_case (λ c. c == b'p' || c == b's' || c == b'e')) ⊙ ends

-- `\(([A-Za-z0-9.\-/]{1,15})\)\s*`
abbrev ticker_part : Regex
ticker_part =
    one (is_code b'(')
    ⊙ group 1 (rep is_ticker_code 1 (some 15))
    ⊙ one (is_code b')')
    ⊙ star is_space

-- `\[([A-Za-z]{1,4})\]\s*$`
abbrev type_part : ℕ → Regex
type_part n =
    one (is_code b'[')
    ⊙ group n (rep is_letter 1 (some 4))
    ⊙ one (is_code b']')
    ⊙ star is_space
    ⊙ ends

abbrev pub ticker_type_re : Regex
ticker_type_re = ticker_part ⊙ type_part 2

abbrev pub type_only_re : Regex
type_only_re = type_part 1

abbrev pub ticker_only_re : Regex
ticker_only_re = ticker_part ⊙ ends

abbrev any_code : Class
any_code c = true

-- Groups 1, 2 and 3 are `type`, `strike` and `expiry`.
abbrev structured_option_re : Regex
structured_option_re =
    group 1 (either (word_any_case (codes "call")) (word_any_case (codes "put")))
    ⊙ optional (any_case (is_code b's'))
    ⊙ plus is_space
    ⊙ word_any_case (codes "option")
    ⊙ optional (any_case (is_code b's'))
    ⊙ lazy any_code
    ⊙ word_any_case (codes "strike")
    ⊙ plus is_space
    ⊙ word_any_case (codes "price")
    ⊙ star is_space
    ⊙ one (is_code b'$')
    ⊙ group 2
        (plus (λ c. is_digit c || c == b',') ⊙ either (one (is_code b'.') ⊙ plus is_digit) nothing)
    ⊙ lazy any_code
    ⊙ word_any_case (codes "expire")
    ⊙ optional (any_case (is_code b's'))
    ⊙ star is_space
    ⊙ group 3 (
        date_digits 2 2
        ⊙ one (is_code b'/')
        ⊙ date_digits 2 2
        ⊙ one (is_code b'/')
        ⊙ date_digits 4 4)

abbrev informal_option_re : Regex
informal_option_re =
    edge
    ⊙ group 1 (
        either (word_any_case (codes "call") ⊙ optional (any_case (is_code b's')))
          (word_any_case (codes "put") ⊙ optional (any_case (is_code b's'))))
    ⊙ edge

abbrev pub is_match {ℓ} : {A : Type ℓ} → Option A → Bool
is_match none = Bool.false
is_match (some m) = true

all_digits : Text → Bool
all_digits [] = true
all_digits (c ∷ t) = is_digit c && all_digits t

drop_zeros : Text → Text
drop_zeros [] = []
drop_zeros (c ∷ t) = let rest = drop_zeros t in if c == b'0' then rest else c ∷ t

pad_two : Text → Text
pad_two [] = b'0' ∷ b'0' ∷ []
pad_two (c ∷ []) = b'0' ∷ c ∷ []
pad_two (c ∷ d ∷ t) = c ∷ d ∷ t

-- `f"{int(part):02d}"`; `none` is the `ValueError` of a part that is not all digits. (Of the other
-- texts that `int` takes, with signs, spaces or underscores, none passes the date patterns.)
unfoldable pub two_digits : Text → Option Text
unfolding all_digits drop_zeros pad_two
two_digits part =
    if is_empty part
    then none
    else if all_digits part
    then some (pad_two (drop_zeros part))
    else none

-- `raw.split("/")` must give three parts.
unfoldable pub to_iso_date : Text → Option Text
unfolding two_digits
to_iso_date raw = do
  (month, rest) ← split_once b'/' raw
  (day, year) ← split_once b'/' rest
  m ← two_digits month
  d ← two_digits day
  if is_match (split_once b'/' year) then none else some (year ++ b'-' ∷ m ++ b'-' ∷ d)

pub record OptionDetails : Type 0 where
  pub option_type : Option Text
  pub strike : Option Float
  pub expiry : Option Text

-- `none` is a `ValueError` of `float` or of a date.
unfoldable pub parse_option_details : Text → Option OptionDetails
parse_option_details description = elim (find_match structured_option_re description) [
  | some m ↦ do
    strike ← float (remove_code b',' (group_of 2 m))
    expiry ← to_iso_date (group_of 3 m)
    some (record {
      option_type = some (lower (group_of 1 m));
      strike = some strike;
      expiry = some expiry;
    })
  | none ↦ elim (find_match informal_option_re description) [
    | some m ↦ some (record {
      option_type = some (rstrip_code b's' (lower (group_of 1 m)));
      strike = none;
      expiry = none;
    })
    | none ↦ some (record { option_type = none; strike = none; expiry = none })
  ]
]
