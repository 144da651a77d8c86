-- ===== src/Base/Decimal.antt =====
-- `str(n)` of a number that is not negative, and `int` of its text.
pub mod Read
use Prim.Native.Nat.{ℕ, zero, suc, ◌+◌, ◌-◌, ◌*◌, ◌/◌, ◌%◌}
use mathlib.Core.Bool.{Bool, true, ◌&&◌}
use mathlib.Core.Option.{Option, none, some}
use mathlib.Core.List.{[], ◌∷◌}
use evnt_trden_public.Base.Tests.{ltb, if◌then◌else◌}
use evnt_trden_public.Base.Strings.{Text, is_digit}

-- The digits in front of `out`. The number falls by each division, so `n + 1` rounds are enough.
print_onto : ℕ → ℕ → Text → Text
print_onto zero n out = out
print_onto (suc fuel) n out =
    let more = print_onto fuel (n / 10) ((b'0' + n % 10) ∷ out) in
    if ltb n 10 then (b'0' + n) ∷ out else more

unfoldable pub print_ℕ : ℕ → Text
unfolding print_onto
print_ℕ n = print_onto (n + 1) n []

-- `int(t)` of a text of digits. Of other texts Python reads those with a sign, with white space around or
-- with single underscores between digits as well.
value_onto : ℕ → Text → ℕ
value_onto n [] = n
value_onto n (c ∷ t) = value_onto (n * 10 + (c - b'0')) t

all_digits : Text → Bool
all_digits [] = true
all_digits (c ∷ t) = is_digit c && all_digits t

unfoldable pub int_of : Text → Option ℕ
unfolding value_onto all_digits
int_of [] = none
int_of (c ∷ t) = if all_digits (c ∷ t) then some (value_onto 0 (c ∷ t)) else none
