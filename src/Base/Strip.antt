-- ===== src/Base/Strip.antt =====
-- What `strip` leaves of a text.
use Prim.Native.Nat.{ℕ}
use mathlib.Core.Path.{◌≡◌, refl, ap, ◌∙◌}
use mathlib.Core.Bool.{false}
use mathlib.Core.List.{[], ◌∷◌, ◌++◌}
use native.Mathlib.Omega.{arith}
use evnt_trden_public.Base.Lists.{All}
use evnt_trden_public.Base.Strings.{Text, is_space, lstrip, rstrip, strip}

abbrev pub NoSpace : Text → Type 0
NoSpace = All (λ c. is_space c ≡ false)

pub lstrip-cons : (c : ℕ) (s : Text) → is_space c ≡ false → lstrip (c ∷ s) ≡ c ∷ s
unfolding lstrip
lstrip-cons c s h = ground arith

-- A text that begins with no space and ends in a text without spaces is kept whole.
rstrip-append : (s : Text) (c : ℕ) (t : Text) → NoSpace (c ∷ t) → rstrip (s ++ c ∷ t) ≡ s ++ c ∷ t
unfolding rstrip
rstrip-append [] c [] h = ground arith
rstrip-append [] c (d ∷ t) h = ground (arith, rstrip-append [] d t h.1)
rstrip-append (b ∷ []) c t h = ground (arith, rstrip-append [] c t h)
rstrip-append (b ∷ e ∷ s) c t h = ground (arith, rstrip-append (e ∷ s) c t h)

pub rstrip-NoSpace : (t : Text) → NoSpace t → rstrip t ≡ t
unfolding rstrip
rstrip-NoSpace [] h = refl
rstrip-NoSpace (c ∷ t) h = rstrip-append [] c t h

pub strip-append :
    (b : ℕ) (s : Text) (c : ℕ) (t : Text)
    → is_space b ≡ false
    → NoSpace (c ∷ t)
    → strip ((b ∷ s) ++ c ∷ t) ≡ (b ∷ s) ++ c ∷ t
unfolding strip
strip-append b s c t hb h = ap rstrip (lstrip-cons b (s ++ c ∷ t) hb) ∙ rstrip-append (b ∷ s) c t h

pub strip-NoSpace : (t : Text) → NoSpace t → strip t ≡ t
unfolding strip
strip-NoSpace [] h = refl
strip-NoSpace (c ∷ t) h = ap rstrip (lstrip-cons c t h.0) ∙ rstrip-append [] c t h

-- One space at the end goes, and one at the front.
rstrip-append-space : (t : Text) → NoSpace t → rstrip (t ++ 32 ∷ []) ≡ t
unfolding rstrip
rstrip-append-space [] h = refl
rstrip-append-space (c ∷ []) h = ground arith
rstrip-append-space (c ∷ d ∷ t) h = ground (arith, rstrip-append-space (d ∷ t) h.1)

pub strip-append-space : (c : ℕ) (t : Text) → NoSpace (c ∷ t) → strip ((c ∷ t) ++ 32 ∷ []) ≡ c ∷ t
unfolding strip
strip-append-space c t h =
    ap rstrip (lstrip-cons c (t ++ 32 ∷ []) h.0) ∙ rstrip-append-space (c ∷ t) h

pub strip-space-cons : (t : Text) → strip (32 ∷ t) ≡ strip t
unfolding strip
strip-space-cons t = refl
