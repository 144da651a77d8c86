-- ===== src/Base/Sort.antt =====
-- `sorted(xs, key=…)`: a stable sort by a Boolean order, as insertion into the sorted tail.
use Prim.Native.Nat.{suc}
use mathlib.Core.Path.{◌≡◌, refl}
use native.Mathlib.Omega.{arith}
use mathlib.Core.Bool.{Bool, true, false}
use mathlib.Core.List.{List, [], ◌∷◌, Perm}
use mathlib.Core.List.Perm
use mathlib.Core.Logic.{inl, inr}
use evnt_trden_public.Base.Tests.{if◌then◌else◌, Bool-cases}
use evnt_trden_public.Base.Lists.{All, All-map, length, count_if}

module _ {ℓ} {A : Type ℓ} (le : A → A → Bool) where
  -- `x` goes before the first element that is not smaller: equal keys keep their order.
  unfoldable pub place : A → List A → List A
  place x [] = x ∷ []
  place x (y ∷ ys) = let rest = place x ys in if le x y then x ∷ y ∷ ys else y ∷ rest

  unfoldable pub sorted : List A → List A
  unfolding place
  sorted [] = []
  sorted (x ∷ xs) = place x (sorted xs)

  pub place-perm : (x : A) (ys : List A) → Perm (place x ys) (x ∷ ys)
  unfolding place
  place-perm x [] = Perm.refl (x ∷ [])
  place-perm x (y ∷ ys) = elim (Bool-cases (le x y)) [
    | inl e ↦ rw e (Perm.refl (x ∷ y ∷ ys))
    | inr e ↦ rw e (Perm.trans (Perm.cons y (place-perm x ys)) (Perm.swap x y ys))
  ]

  -- Sorting keeps the elements.
  pub sorted-perm : (xs : List A) → Perm (sorted xs) xs
  unfolding sorted
  sorted-perm [] = Perm.refl []
  sorted-perm (x ∷ xs) = Perm.trans (place-perm x (sorted xs)) (Perm.cons x (sorted-perm xs))

  length-place : (x : A) (ys : List A) → length (place x ys) ≡ suc (length ys)
  unfolding place
  length-place x [] = refl
  length-place x (y ∷ ys) = ground (arith, length-place x ys)

  pub length-sorted : (xs : List A) → length (sorted xs) ≡ length xs
  unfolding sorted
  length-sorted [] = refl
  length-sorted (x ∷ xs) = ground (arith, length-place x (sorted xs), length-sorted xs)

  count_if-place :
      (p : A → Bool) (x : A) (ys : List A) → count_if p (place x ys) ≡ count_if p (x ∷ ys)
  unfolding place
  count_if-place p x [] = refl
  count_if-place p x (y ∷ ys) = ground (arith, count_if-place p x ys)

  pub count_if-sorted : (p : A → Bool) (xs : List A) → count_if p (sorted xs) ≡ count_if p xs
  unfolding sorted
  count_if-sorted p [] = refl
  count_if-sorted p (x ∷ xs) = ground (arith, count_if-place p x (sorted xs), count_if-sorted p xs)

  -- Each element is `le` the next one.
  abbrev pub Ascending : List A → Type 0
  Ascending [] = Unit
  Ascending (x ∷ []) = Unit
  Ascending (x ∷ y ∷ ys) = (le x y ≡ true) × Ascending (y ∷ ys)

  module _ {κ} (P : A → Type κ) where
    place-All : (x : A) (ys : List A) → P x → All P ys → All P (place x ys)
    unfolding place
    place-All x [] px h = (px, tt)
    place-All x (y ∷ ys) px (py, h) = elim (Bool-cases (le x y)) [
      | inl e ↦ rw e (px, (py, h))
      | inr e ↦ rw e (py, place-All x ys px h)
    ]

    pub sorted-All : (xs : List A) → All P xs → All P (sorted xs)
    unfolding sorted
    sorted-All [] h = tt
    sorted-All (x ∷ xs) (px, h) = place-All x (sorted xs) px (sorted-All xs h)

    first : (x y : A) (ys : List A) → P y × All P (place x ys) → P y
    first x y ys h = h.0

    second : (x y : A) (ys : List A) → P y × All P (place x ys) → All P (place x ys)
    second x y ys h = h.1

    All-place : (x : A) (ys : List A) → All P (place x ys) → P x × All P ys
    unfolding place
    All-place x [] h = h
    All-place x (y ∷ ys) h = elim (Bool-cases (le x y)) [
      | inl e ↦ (rw e at h)
      | inr e ↦
          let k = All-place x ys (second x y ys (rw e at h)) in
          (k.0, (first x y ys (rw e at h), k.1))
    ]

    pub All-sorted : (xs : List A) → All P (sorted xs) → All P xs
    unfolding sorted
    All-sorted [] h = tt
    All-sorted (x ∷ xs) h = let (px, k) = All-place x (sorted xs) h in (px, All-sorted xs k)

  module _ (total : (x y : A) → le x y ≡ false → le y x ≡ true) where
    place-Ascending_onto :
        (z x : A) (ys : List A) → le z x ≡ true → Ascending (z ∷ ys) → Ascending (z ∷ place x ys)
    unfolding place
    place-Ascending_onto z x [] zx h = (zx, tt)
    place-Ascending_onto z x (y ∷ ys) zx (zy, h) = elim (Bool-cases (le x y)) [
      | inl e ↦ rw e (zx, (e, h))
      | inr e ↦ rw e (zy, place-Ascending_onto y x ys (total x y e) h)
    ]

    place-Ascending : (x : A) (ys : List A) → Ascending ys → Ascending (place x ys)
    unfolding place
    place-Ascending x [] h = tt
    place-Ascending x (y ∷ ys) h = elim (Bool-cases (le x y)) [
      | inl e ↦ rw e (e, h)
      | inr e ↦ rw e (place-Ascending_onto y x ys (total x y e) h)
    ]

    -- Sorting by a total order puts the elements in order.
    pub sorted-Ascending : (xs : List A) → Ascending (sorted xs)
    unfolding sorted
    sorted-Ascending [] = tt
    sorted-Ascending (x ∷ xs) = place-Ascending x (sorted xs) (sorted-Ascending xs)

  module _ (transitive : (x y z : A) → le x y ≡ true → le y z ≡ true → le x z ≡ true) where
    -- The first of a list in order is `le` all the others.
    pub below_all : (x : A) (ys : List A) → Ascending (x ∷ ys) → All (λ y. le x y ≡ true) ys
    below_all x [] h = tt
    below_all x (y ∷ ys) (xy, h) =
        (xy, All-map _ _ (λ z yz. transitive x y z xy yz) ys (below_all y ys h))

    pub tail-Ascending : (x : A) (ys : List A) → Ascending (x ∷ ys) → Ascending ys
    tail-Ascending x [] h = tt
    tail-Ascending x (y ∷ ys) (xy, h) = h
