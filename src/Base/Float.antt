-- ===== src/Base/Float.antt =====
-- `float(text)`: Python's grammar of floating-point texts. A finite value is kept as it is written, a
-- whole number and a power of ten; the rounding to 53 bits is left out.
pub mod Whole
use Prim.Native.Nat.{ℕ, ◌+◌, ◌-◌, ◌*◌, ◌^◌}
use mathlib.Core.Path.{◌≡◌, refl}
use mathlib.Core.Bool.{Bool, true, false, ◌&&◌, ◌||◌, not}
use mathlib.Core.List.{[], ◌∷◌}
use mathlib.Core.Option.{Option, none, some}
use evnt_trden_public.Base.Tests.{◌==◌, if◌then◌else◌}
use evnt_trden_public.Base.Strings.{Text, codes, is_digit, lower, strip, one_of, text_eq}
use evnt_trden_public.Base.Int.{ℤ, pos, ◌-ℤ◌, pos_part, neg_part}

-- `finite minus m e` is ±m * 10^e.
pub data Float : Type 0 where
  finite : Bool → ℕ → ℤ → Float
  infinite : Bool → Float
  nan : Float

starts_digit : Text → Bool
unfolding is_digit
starts_digit [] = false
starts_digit (c ∷ s) = is_digit c

-- An underscore may stand between two digits, and nowhere else. The flag: a digit stands before.
drop_underscores : Bool → Text → Option Text
unfolding starts_digit
drop_underscores after [] = some []
drop_underscores after (c ∷ s) =
    let rest = drop_underscores (if c == b'_' then false else is_digit c) s in
    if c == b'_'
    then (if after && starts_digit s then rest else none)
    else elim rest [ none ↦ none | some t ↦ some (c ∷ t) ]

-- The digits at the front: their value after `acc`, how many there are, and what follows.
pub record Digits : Type 0 where
  pub value : ℕ
  pub count : ℕ
  pub rest : Text

unfoldable pub scan_digits : ℕ → ℕ → Text → Digits
unfolding is_digit
scan_digits acc n [] = record { value = acc; count = n; rest = [] }
scan_digits acc n (c ∷ s) =
    let more = scan_digits (acc * 10 + (c - b'0')) (n + 1) s in
    if is_digit c then more else record { value = acc; count = n; rest = c ∷ s }

-- `[+-]`
take_sign : Text → Bool × Text
take_sign [] = (false, [])
take_sign (c ∷ s) =
    if c == b'-' then (true, s) else if c == b'+' then (false, s) else (false, c ∷ s)

-- `e[+-]digits`, or the end
exponent_digits : Bool → Digits → Option ℤ
exponent_digits minus d = elim d.rest [
  | [] ↦ if d.count == 0 then none else some (if minus then pos 0 -ℤ pos d.value else pos d.value)
  | _ ↦ none
]

exponent : Text → Option ℤ
unfolding scan_digits take_sign exponent_digits ◌-ℤ◌
exponent [] = some (pos 0)
exponent (c ∷ s) =
    let (minus, digits) = take_sign s in
    if c == b'e' || c == b'E' then exponent_digits minus (scan_digits 0 0 digits) else none

-- `digits[.digits]` with at least one digit, as a value and the number of its decimals
after_point : Digits → Digits × ℕ
unfolding scan_digits
after_point d = elim d.rest [
  | [] ↦ (d, 0)
  | c ∷ s ↦
      let more = scan_digits d.value d.count s in
      if c == b'.' then (more, more.count - d.count) else (d, 0)
]

-- the digits, their decimals and the exponent together
assemble : Bool → Digits × ℕ → Option Float
unfolding exponent
assemble minus (d, decimals) = if d.count == 0 then none else elim (exponent d.rest) [
  | none ↦ none
  | some e ↦ some (finite minus d.value (e -ℤ pos decimals))
]

unsigned : Bool → Text → Option Float
unfolding scan_digits after_point assemble
unsigned minus s = assemble minus (after_point (scan_digits 0 0 s))

signed : Text → Option Float
unfolding take_sign unsigned one_of lower
signed s =
    let (minus, t) = take_sign s in
    if one_of (codes "inf" ∷ codes "infinity" ∷ []) (lower t)
    then some (infinite minus)
    else if one_of (codes "nan" ∷ []) (lower t)
    then some nan
    else unsigned minus t

finish : Option Text → Option Float
unfolding signed
finish none = none
finish (some t) = signed t

-- `none` is the `ValueError`.
unfoldable pub float : Text → Option Float
unfolding finish drop_underscores strip
float s = finish (drop_underscores false (strip s))

float_plain : float (codes " 15000 ") ≡ some (finite false 15000 (pos 0))
unfolding float text_eq
float_plain = refl

float_decimals : float (codes "-1_0.25e3") ≡ some (finite true 1025 (pos 1))
unfolding float text_eq
float_decimals = refl

float_refused :
    (float (codes "1__0") ≡ none) × (float (codes "12 3") ≡ none) × (float (codes ".e1") ≡ none)
unfolding float text_eq
float_refused = (refl, refl, refl)

same_sign : Bool → Bool → Bool
same_sign true b = b
same_sign false b = not b

-- `a == b`: both zeros are equal, and no `nan` is equal to anything.
unfoldable pub float_eq : Float → Float → Bool
unfolding same_sign
float_eq (finite minus m e) (finite other n f) =
    m * 10 ^ (pos_part e + neg_part f) == n * 10 ^ (pos_part f + neg_part e)
    && (m == 0 || same_sign minus other)
float_eq (infinite minus) (infinite other) = same_sign minus other
float_eq _ _ = false
