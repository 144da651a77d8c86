-- ===== src/Base/Strings.antt =====
-- Python's `str` as the list of its code points, with the methods that the program calls. Letter
-- case is that of the ASCII letters; white space is all that `str.isspace` and `\s` accept.
use Prim.Native.Nat.{ℕ, ◌+◌, ◌-◌}
use Prim.Native.Char.{code}
use Prim.Native.String.{String}
use mathlib.Core.Path.{◌≡◌, refl}
use mathlib.Core.Logic.{◌↔◌}
use mathlib.Core.Bool.{Bool, true, false, ◌&&◌, ◌||◌}
use mathlib.Core.List.{List, [], ◌∷◌, ◌++◌, map, reverse}
use mathlib.Core.Option.{Option, none, some}
use native.Mathlib.Omega.{arith}
use evnt_trden_public.Base.Tests.{leb, ◌==◌, if◌then◌else◌}

abbrev pub Text : Type 0
Text = List ℕ

-- The code points of a literal.
abbrev pub codes : String → Text
codes String.[] = []
codes (String.◌∷◌ c s) = code c ∷ codes s

unfoldable pub text_eq : Text → Text → Bool
text_eq [] [] = true
text_eq (a ∷ s) (b ∷ t) = a == b && text_eq s t
text_eq _ _ = false

pub text_eq_iff : (s t : Text) → (text_eq s t ≡ true) ↔ (s ≡ t)
unfolding text_eq
text_eq_iff [] [] = (λ h. refl, λ h. refl)
text_eq_iff [] (b ∷ t) = (λ h. cc, λ h. cc)
text_eq_iff (a ∷ s) [] = (λ h. cc, λ h. cc)
text_eq_iff (a ∷ s) (b ∷ t) = ground (arith, text_eq_iff s t)

pub text_eq_refl : (s : Text) → text_eq s s ≡ true
text_eq_refl s = (text_eq_iff s s).1 refl

-- Membership in a set of texts.
unfoldable pub one_of : List Text → Text → Bool
one_of [] t = false
one_of (s ∷ ss) t = text_eq t s || one_of ss t

abbrev between : ℕ → ℕ → ℕ → Bool
between lo hi c = leb lo c && leb c hi

unfoldable pub is_space : ℕ → Bool
is_space c =
    between 9 13 c
    || between 28 32 c
    || c == 133
    || c == 160
    || c == 5760
    || between 8192 8202 c
    || between 8232 8233 c
    || c == 8239
    || c == 8287
    || c == 12288

unfoldable pub is_digit : ℕ → Bool
is_digit c = between b'0' b'9' c

unfoldable pub is_upper : ℕ → Bool
is_upper c = between b'A' b'Z' c

unfoldable pub is_lower : ℕ → Bool
is_lower c = between b'a' b'z' c

unfoldable pub lower_code : ℕ → ℕ
unfolding is_upper
lower_code c = if is_upper c then c + 32 else c

unfoldable pub upper_code : ℕ → ℕ
unfolding is_lower
upper_code c = if is_lower c then c - 32 else c

-- `s.lower()`, `s.upper()`
unfoldable pub lower : Text → Text
unfolding lower_code
lower = map lower_code

unfoldable pub upper : Text → Text
unfolding upper_code
upper = map upper_code

-- `s.lstrip()`
unfoldable pub lstrip : Text → Text
unfolding is_space
lstrip [] = []
lstrip (c ∷ s) = let rest = lstrip s in if is_space c then rest else c ∷ s

-- `s.rstrip()`: a space goes if nothing but spaces follows it
attach_unless : Bool → ℕ → Text → Text
attach_unless drops c [] = if drops then [] else c ∷ []
attach_unless drops c (d ∷ t) = c ∷ d ∷ t

unfoldable pub rstrip : Text → Text
unfolding is_space attach_unless
rstrip [] = []
rstrip (c ∷ s) = attach_unless (is_space c) c (rstrip s)

unfoldable pub strip : Text → Text
unfolding lstrip rstrip
strip s = rstrip (lstrip s)

-- `s.startswith(t)`
unfoldable pub starts_with : Text → Text → Bool
starts_with s [] = true
starts_with [] (b ∷ t) = false
starts_with (a ∷ s) (b ∷ t) = a == b && starts_with s t

-- `s.endswith(t)`
unfoldable pub ends_with : Text → Text → Bool
unfolding starts_with
ends_with s t = starts_with (reverse s) (reverse t)

-- `t in s`
unfoldable pub has_text : Text → Text → Bool
unfolding starts_with
has_text t [] = starts_with [] t
has_text t (c ∷ s) = starts_with (c ∷ s) t || has_text t s

-- `c in s` for one character
unfoldable pub has_code : ℕ → Text → Bool
has_code c [] = false
has_code c (d ∷ s) = d == c || has_code c s

-- `s.replace(c, "")` for one character
unfoldable pub remove_code : ℕ → Text → Text
remove_code c [] = []
remove_code c (d ∷ s) = let rest = remove_code c s in if d == c then rest else d ∷ rest

add_front : ℕ → Option (Text × Text) → Option (Text × Text)
add_front d none = none
add_front d (some (a, b)) = some (d ∷ a, b)

-- `s.split(c, 1)`: the text before the first `c` and the one after it, if there is one.
unfoldable pub split_once : ℕ → Text → Option (Text × Text)
unfolding add_front
split_once c [] = none
split_once c (d ∷ s) =
    let rest = split_once c s in if d == c then some ([], s) else add_front d rest

-- `s.rstrip(c)` for one character
unfoldable pub rstrip_code : ℕ → Text → Text
unfolding attach_unless
rstrip_code c [] = []
rstrip_code c (d ∷ s) = attach_unless (d == c) d (rstrip_code c s)

-- `sep.join(parts)`
unfoldable pub join : Text → List Text → Text
join sep [] = []
join sep (t ∷ []) = t
join sep (t ∷ u ∷ rest) = t ++ sep ++ join sep (u ∷ rest)

-- `t or None`, and the truth of a text
unfoldable pub non_empty : Text → Option Text
non_empty [] = none
non_empty (c ∷ s) = some (c ∷ s)

abbrev pub is_empty {ℓ} : {A : Type ℓ} → List A → Bool
is_empty [] = true
is_empty (x ∷ xs) = false

-- `d.get(key)` of a dict that the source writes out.
unfoldable pub dict_get {ℓ} : {V : Type ℓ} → Text → List (Text × V) → Option V
dict_get key [] = none
dict_get key ((k, v) ∷ d) = if text_eq key k then some v else dict_get key d

-- `s.split()`: the words between white space.
add_to_word : ℕ → List Text → List Text
add_to_word c [] = (c ∷ []) ∷ []
add_to_word c (w ∷ ws) = (c ∷ w) ∷ ws

starts_space : Text → Bool
starts_space [] = true
starts_space (c ∷ s) = is_space c

unfoldable pub split_words : Text → List Text
unfolding add_to_word starts_space is_space
split_words [] = []
split_words (c ∷ s) =
    let rest = split_words s in
    if is_space c then rest else if starts_space s then (c ∷ []) ∷ rest else add_to_word c rest
