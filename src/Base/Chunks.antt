-- ===== src/Base/Chunks.antt =====
-- A list in slices of one size, from the front.
use Prim.Native.Nat.{ℕ, zero, suc, ◌≤◌, ◌<◌}
use mathlib.Core.Path.{◌≡◌, refl, ap, ◌∙◌}
use mathlib.Core.List.{List, [], ◌∷◌, ◌++◌}
use native.Mathlib.Omega.{arith}
use evnt_trden_public.Base.Lists.{length, take, drop, take-append-drop, length-take-drop}

-- The slices `xs[start : start + size]` for `start` in steps of `size` (at least one); `fuel` bounds
-- their number.
chunks : {A : Type 0} → ℕ → ℕ → List A → List (List A)
chunks zero size xs = []
chunks (suc fuel) size [] = []
chunks (suc fuel) size (x ∷ xs) = take size (x ∷ xs) ∷ chunks fuel size (drop size (x ∷ xs))

-- There are at most as many slices as elements.
unfoldable pub chunked : {A : Type 0} → ℕ → List A → List (List A)
unfolding chunks
chunked size xs = chunks (length xs) size xs

unfoldable pub concat {ℓ} : {A : Type ℓ} → List (List A) → List A
concat [] = []
concat (xs ∷ xss) = xs ++ concat xss

concat-chunks :
    {A : Type 0} (fuel size : ℕ) (xs : List A)
    → 0 < size
    → length xs ≤ fuel
    → concat (chunks fuel size xs) ≡ xs
unfolding chunks concat
concat-chunks zero size [] pos h = refl
concat-chunks zero size (x ∷ xs) pos h = absurd (omega arith)
concat-chunks (suc fuel) size [] pos h = refl
concat-chunks (suc fuel) zero (x ∷ xs) pos h = absurd (omega arith)
concat-chunks {A} (suc fuel) (suc size) (x ∷ xs) pos h =
    ap (◌++◌ (x ∷ take size xs))
      (concat-chunks fuel (suc size) (drop size xs) pos (omega (arith, length-take-drop size xs)))
    ∙ ap (◌∷◌ x) (take-append-drop size xs)

-- The chunks are the whole list.
pub concat-chunked :
    {A : Type 0} (size : ℕ) (xs : List A) → 0 < size → concat (chunked size xs) ≡ xs
unfolding chunked
concat-chunked size xs pos = concat-chunks (length xs) size xs pos (omega arith)
