-- ===== src/Base/Decimal/Read.antt =====
-- A number that is printed is read as it was.
use Prim.Native.Nat.{ℕ, zero, suc, ◌+◌, ◌-◌, ◌*◌, ◌/◌, ◌%◌, ◌<◌}
use mathlib.Core.Path.{◌≡◌, refl, ap, ◌∙◌}
use mathlib.Core.Bool.{true, false}
use mathlib.Core.Logic.{inl, inr}
use mathlib.Core.Option.{some}
use mathlib.Core.List.{[], ◌∷◌}
use native.Mathlib.Omega.{arith}
use evnt_trden_public.Base.Tests.{ltb, Bool-cases}
use evnt_trden_public.Base.Strings.{Text, is_digit, has_code, is_empty}
use evnt_trden_public.Base.Decimal.{print_onto, print_ℕ, value_onto, all_digits, int_of}

digit_value : (m n : ℕ) → m * 10 + (b'0' + n % 10 - b'0') ≡ m * 10 + n % 10
digit_value m n = omega arith

value-print_onto :
    (fuel n : ℕ) (out : Text) → n < fuel → value_onto 0 (print_onto fuel n out) ≡ value_onto n out
unfolding value_onto print_onto
value-print_onto zero n out h = absurd (omega arith)
value-print_onto (suc fuel) n out h = elim (Bool-cases (ltb n 10)) [
  | inl e ↦ rw e (ap (λ m. value_onto m out) (omega arith))
  | inr e ↦ rw e (
      value-print_onto fuel (n / 10) ((b'0' + n % 10) ∷ out) (ground arith)
      ∙ ap (λ m. value_onto m out) (omega arith))
]

all_digits-print_onto :
    (fuel n : ℕ) (out : Text) → all_digits out ≡ true → all_digits (print_onto fuel n out) ≡ true
unfolding all_digits print_onto is_digit
all_digits-print_onto zero n out h = h
all_digits-print_onto (suc fuel) n out h = elim (Bool-cases (ltb n 10)) [
  | inl e ↦ rw e (ground (arith, e, h))
  | inr e ↦ rw e (all_digits-print_onto fuel (n / 10) ((b'0' + n % 10) ∷ out) (ground (arith, h)))
]

-- No other character stands in it.
has_code-print_onto :
    (c fuel n : ℕ) (out : Text)
    → is_digit c ≡ false
    → has_code c out ≡ false
    → has_code c (print_onto fuel n out) ≡ false
unfolding print_onto has_code is_digit
has_code-print_onto c zero n out d h = h
has_code-print_onto c (suc fuel) n out d h = elim (Bool-cases (ltb n 10)) [
  | inl e ↦ rw e (ground (arith, e, h, d))
  | inr e ↦
      rw e (has_code-print_onto c fuel (n / 10) ((b'0' + n % 10) ∷ out) d (ground (arith, h, d)))
]

is_empty-print_onto : (fuel n c : ℕ) (out : Text) → is_empty (print_onto fuel n (c ∷ out)) ≡ false
unfolding print_onto
is_empty-print_onto zero n c out = refl
is_empty-print_onto (suc fuel) n c out = elim (Bool-cases (ltb n 10)) [
  | inl e ↦ rw e refl
  | inr e ↦ rw e (is_empty-print_onto fuel (n / 10) (b'0' + n % 10) (c ∷ out))
]

print_onto-nonempty :
    (fuel n : ℕ) (out : Text) → n < fuel → is_empty (print_onto fuel n out) ≡ false
unfolding print_onto
print_onto-nonempty zero n out h = absurd (omega arith)
print_onto-nonempty (suc fuel) n out h = elim (Bool-cases (ltb n 10)) [
  | inl e ↦ rw e refl
  | inr e ↦ rw e (is_empty-print_onto fuel (n / 10) (b'0' + n % 10) out)
]

int_of_lem :
    (t : Text) → is_empty t ≡ false → all_digits t ≡ true → int_of t ≡ some (value_onto 0 t)
unfolding int_of
int_of_lem [] e d = absurd cc
int_of_lem (c ∷ t) e d = rw d refl

pub int_of-print_ℕ : (n : ℕ) → int_of (print_ℕ n) ≡ some n
unfolding print_ℕ value_onto all_digits
int_of-print_ℕ n =
    int_of_lem (print_onto (n + 1) n []) (print_onto-nonempty (n + 1) n [] (omega arith))
      (all_digits-print_onto (n + 1) n [] refl)
    ∙ ap some (value-print_onto (n + 1) n [] (omega arith))

pub has_code-print_ℕ : (c n : ℕ) → is_digit c ≡ false → has_code c (print_ℕ n) ≡ false
unfolding print_ℕ has_code
has_code-print_ℕ c n d = has_code-print_onto c (n + 1) n [] d refl
