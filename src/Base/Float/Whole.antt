-- ===== src/Base/Float/Whole.antt =====
-- `float` reads a text of digits as its decimal value.
use Prim.Native.Nat.{ℕ, ◌+◌, ◌-◌, ◌*◌}
use mathlib.Core.Path.{◌≡◌, refl, ap, ◌∙◌}
use mathlib.Core.Bool.{Bool, true, false}
use mathlib.Core.List.{[], ◌∷◌}
use mathlib.Core.Option.{some}
use native.Mathlib.Omega.{arith}
use evnt_trden_public.Base.Lists.{All, length}
use evnt_trden_public.Base.Strings.{Text, is_digit, is_space, text_eq}
use evnt_trden_public.Base.Strip.{NoSpace, strip-NoSpace}
use evnt_trden_public.Base.Int.{pos, ◌-ℤ◌}
use evnt_trden_public.Base.Float.{
  finite, float, signed, unsigned, scan_digits, drop_underscores, after_point, assemble, finish,
}

abbrev pub AllDigits : Text → Type 0
AllDigits = All (λ c. is_digit c ≡ true)

-- The number that the digits write, after `acc`.
unfoldable pub decimal : ℕ → Text → ℕ
decimal acc [] = acc
decimal acc (c ∷ s) = decimal (acc * 10 + (c - b'0')) s

digit-no_space : (c : ℕ) → is_digit c ≡ true → is_space c ≡ false
unfolding is_digit is_space
digit-no_space c h = ground arith

pub AllDigits-NoSpace : (t : Text) → AllDigits t → NoSpace t
AllDigits-NoSpace [] h = tt
AllDigits-NoSpace (c ∷ t) h = (digit-no_space c h.0, AllDigits-NoSpace t h.1)

scan_digits-AllDigits :
    (acc n : ℕ) (t : Text)
    → AllDigits t
    → scan_digits acc n t ≡ record { value = decimal acc t; count = n + length t; rest = [] }
unfolding scan_digits decimal
scan_digits-AllDigits acc n [] h = ground arith
scan_digits-AllDigits acc n (c ∷ t) h =
    ground (arith, scan_digits-AllDigits (acc * 10 + (c - b'0')) (n + 1) t h.1)

drop_underscores-AllDigits :
    (after : Bool) (t : Text) → AllDigits t → drop_underscores after t ≡ some t
unfolding drop_underscores
drop_underscores-AllDigits after [] h = refl
drop_underscores-AllDigits after (c ∷ t) h =
    ground (arith, drop_underscores-AllDigits (is_digit c) t h.1)

unsigned-AllDigits :
    (c : ℕ) (t : Text)
    → AllDigits (c ∷ t)
    → unsigned false (c ∷ t) ≡ some (finite false (decimal 0 (c ∷ t)) (pos 0))
unfolding unsigned ◌-ℤ◌
unsigned-AllDigits c t h =
    ap (λ d. assemble false (after_point d)) (scan_digits-AllDigits 0 0 (c ∷ t) h) ∙ ground arith

signed-AllDigits :
    (c : ℕ) (t : Text)
    → AllDigits (c ∷ t)
    → signed (c ∷ t) ≡ some (finite false (decimal 0 (c ∷ t)) (pos 0))
unfolding signed text_eq
signed-AllDigits c t h = ground (arith, unsigned-AllDigits c t h)

-- A text of digits, at least one, is the whole number that it writes.
pub float-AllDigits :
    (c : ℕ) (t : Text)
    → AllDigits (c ∷ t)
    → float (c ∷ t) ≡ some (finite false (decimal 0 (c ∷ t)) (pos 0))
unfolding float
float-AllDigits c t h =
    ap (λ u. finish (drop_underscores false u))
      (strip-NoSpace (c ∷ t) (AllDigits-NoSpace (c ∷ t) h))
    ∙ ap finish (drop_underscores-AllDigits false (c ∷ t) h)
    ∙ signed-AllDigits c t h
