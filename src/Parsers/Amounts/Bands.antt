-- ===== src/Parsers/Amounts/Bands.antt =====
-- What `parse_amount_range` reads from a band as both sites print it.
use evnt_trden_public.Base.{
  ℕ, ◌+◌, ◌-◌, ◌*◌, ◌≡◌, refl, ap, ap₂, sym, ◌∙◌, true, false, ◌||◌, some, [], ◌∷◌, ◌++◌, arith,
  if◌then◌else◌, ◌==◌, Text, is_digit, is_space, All, pos, append_assoc, remove_code, split_once,
  strip, All-append, starts_with, lower, has_code,
}
use evnt_trden_public.Base.Strip.{
  NoSpace, strip-append, strip-NoSpace, strip-append-space, strip-space-cons,
}
use evnt_trden_public.Base.Float.{finite}
use evnt_trden_public.Base.Float.Whole.{AllDigits, AllDigits-NoSpace, decimal, float-AllDigits}
use evnt_trden_public.Parsers.Amounts.{
  number_of, to_number, both_amounts, range_of, parse_amount_range,
}

-- Digits with commas between them, a digit first.
abbrev pub Grouped : Text → Type 0
Grouped = All (λ c. (is_digit c || c == b',') ≡ true)

abbrev pub IsAmount : Text → Type 0
IsAmount [] = ⊥
IsAmount (c ∷ t) = (is_digit c ≡ true) × Grouped t

-- The number that grouped digits write: commas count for nothing.
unfoldable pub grouped_value : ℕ → Text → ℕ
grouped_value acc [] = acc
grouped_value acc (c ∷ t) = grouped_value (if c == b',' then acc else acc * 10 + (c - b'0')) t

-- "$low - $high"
pub band : Text → Text → Text
band low high = (b'$' ∷ low ++ b' ' ∷ []) ++ b'-' ∷ b' ' ∷ b'$' ∷ high

remove_code-append :
    (k : ℕ) (s t : Text) → remove_code k (s ++ t) ≡ remove_code k s ++ remove_code k t
unfolding remove_code
remove_code-append k [] t = refl
remove_code-append k (c ∷ s) t = ground (arith, remove_code-append k s t)

remove_dollar-Grouped : (t : Text) → Grouped t → remove_code b'$' t ≡ t
unfolding remove_code is_digit
remove_dollar-Grouped [] h = refl
remove_dollar-Grouped (c ∷ t) h = ground (arith, remove_dollar-Grouped t h.1)

remove_comma-AllDigits : (t : Text) → Grouped t → AllDigits (remove_code b',' t)
unfolding remove_code
remove_comma-AllDigits [] h = tt
remove_comma-AllDigits (c ∷ t) h = ground (arith, remove_comma-AllDigits t h.1)

decimal-remove_comma : (acc : ℕ) (t : Text) → decimal acc (remove_code b',' t) ≡ grouped_value acc t
unfolding decimal remove_code grouped_value
decimal-remove_comma acc [] = refl
decimal-remove_comma acc (c ∷ t) =
    ground (arith, decimal-remove_comma acc t, decimal-remove_comma (acc * 10 + (c - b'0')) t)

IsAmount-Grouped : (t : Text) → IsAmount t → Grouped t
IsAmount-Grouped [] h = elim h [ ]
IsAmount-Grouped (c ∷ t) h = ground arith

-- A text without the separator, the separator, and the rest.
split_once-append :
    (k : ℕ) (s t : Text) → All (λ c. (c == k) ≡ false) s → split_once k (s ++ k ∷ t) ≡ some (s, t)
unfolding split_once
split_once-append k [] t h = ground arith
split_once-append k (c ∷ s) t h = ground (arith, split_once-append k s t h.1)

remove_comma-IsAmount :
    (c : ℕ) (t : Text) → is_digit c ≡ true → remove_code b',' (c ∷ t) ≡ c ∷ remove_code b',' t
unfolding remove_code is_digit
remove_comma-IsAmount c t h = ground arith

-- A dollar sign and the digits, with white space that `strip` takes off.
number_of-cleaned :
    (t : Text)
    → IsAmount t
    → number_of (remove_code b',' t) ≡ some (finite false (grouped_value 0 t) (pos 0))
unfolding number_of
number_of-cleaned [] h = elim h [ ]
number_of-cleaned (c ∷ t) h =
    ap number_of (remove_comma-IsAmount c t h.0)
    ∙ float-AllDigits c (remove_code b',' t) (h.0, remove_comma-AllDigits t h.1)
    ∙ ap (λ u. some (finite false u (pos 0)))
        (ap (decimal 0) (sym (remove_comma-IsAmount c t h.0)) ∙ decimal-remove_comma 0 (c ∷ t))

dollar_front : (t : Text) → IsAmount t → remove_code b'$' (b'$' ∷ t) ≡ t
unfolding remove_code
dollar_front t h = remove_dollar-Grouped t (IsAmount-Grouped t h)

strip-cleaned : (t : Text) → IsAmount t → strip (remove_code b',' t) ≡ remove_code b',' t
strip-cleaned t h =
    strip-NoSpace _ (AllDigits-NoSpace _ (remove_comma-AllDigits t (IsAmount-Grouped t h)))

strip-cleaned_space :
    (t : Text) → IsAmount t → strip (remove_code b',' t ++ 32 ∷ []) ≡ remove_code b',' t
strip-cleaned_space [] h = elim h [ ]
strip-cleaned_space (c ∷ t) h =
    ap (λ u. strip (u ++ 32 ∷ [])) (remove_comma-IsAmount c t h.0)
    ∙ strip-append-space c (remove_code b',' t)
        (AllDigits-NoSpace (c ∷ remove_code b',' t) (h.0, remove_comma-AllDigits t h.1))
    ∙ sym (remove_comma-IsAmount c t h.0)

pub to_number-dollar :
    (t : Text) → IsAmount t → to_number (b'$' ∷ t) ≡ some (finite false (grouped_value 0 t) (pos 0))
unfolding to_number
to_number-dollar t h =
    ap (λ u. number_of (strip (remove_code b',' u))) (dollar_front t h)
    ∙ ap number_of (strip-cleaned t h)
    ∙ number_of-cleaned t h

to_number-dollar_space :
    (t : Text)
    → IsAmount t
    → to_number (b'$' ∷ t ++ b' ' ∷ []) ≡ some (finite false (grouped_value 0 t) (pos 0))
unfolding to_number remove_code
to_number-dollar_space t h =
    ap (λ u. number_of (strip (remove_code b',' u)))
      (remove_code-append b'$' (b'$' ∷ t) (b' ' ∷ []) ∙ ap (λ u. u ++ b' ' ∷ []) (dollar_front t h))
    ∙ ap (λ u. number_of (strip u)) (remove_code-append b',' t (b' ' ∷ []))
    ∙ ap number_of (strip-cleaned_space t h)
    ∙ number_of-cleaned t h

to_number-space_dollar :
    (t : Text)
    → IsAmount t
    → to_number (b' ' ∷ b'$' ∷ t) ≡ some (finite false (grouped_value 0 t) (pos 0))
unfolding to_number remove_code
to_number-space_dollar t h =
    ap number_of (strip-space-cons (remove_code b',' (remove_code b'$' t))) ∙ to_number-dollar t h

has_code-append : (k : ℕ) (s t : Text) → has_code k (s ++ k ∷ t) ≡ true
unfolding has_code
has_code-append k [] t = ground arith
has_code-append k (c ∷ s) t = ground (arith, has_code-append k s t)

Grouped-no_dash : (t : Text) → Grouped t → All (λ c. (c == b'-') ≡ false) t
unfolding is_digit
Grouped-no_dash [] h = tt
Grouped-no_dash (c ∷ t) h = (ground arith, Grouped-no_dash t h.1)

Grouped-NoSpace : (t : Text) → Grouped t → NoSpace t
unfolding is_digit is_space
Grouped-NoSpace [] h = tt
Grouped-NoSpace (c ∷ t) h = (ground arith, Grouped-NoSpace t h.1)

strip-band : (low high : Text) → IsAmount high → strip (band low high) ≡ band low high
unfolding band is_space
strip-band low [] h = elim h [ ]
strip-band low (c ∷ t) h =
    let s = low ++ b' ' ∷ [] in
    ap strip (sym (append_assoc (b'$' ∷ s) (b'-' ∷ b' ' ∷ b'$' ∷ []) (c ∷ t)))
    ∙ strip-append b'$' (s ++ b'-' ∷ b' ' ∷ b'$' ∷ []) c t refl
        (Grouped-NoSpace (c ∷ t) (IsAmount-Grouped (c ∷ t) h))
    ∙ append_assoc (b'$' ∷ s) (b'-' ∷ b' ' ∷ b'$' ∷ []) (c ∷ t)

range_of-band :
    (low high : Text)
    → All (λ c. (c == b'-') ≡ false) (b'$' ∷ low ++ b' ' ∷ [])
    → range_of (band low high)
      ≡ (to_number (b'$' ∷ low ++ b' ' ∷ []), to_number (b' ' ∷ b'$' ∷ high))
unfolding band
range_of-band low high h =
    unfold range_of lower starts_with in
    rw (has_code-append b'-' (b'$' ∷ low ++ b' ' ∷ []) (b' ' ∷ b'$' ∷ high))
      (ap both_amounts (split_once-append b'-' (b'$' ∷ low ++ b' ' ∷ []) (b' ' ∷ b'$' ∷ high) h))

-- A band "$low - $high", with amounts written in digits and commas, is read as the two numbers that
-- the digits write.
pub parse_amount_range-band :
    (low high : Text)
    → IsAmount low
    → IsAmount high
    → parse_amount_range (band low high) ≡ (
      some (finite false (grouped_value 0 low) (pos 0)),
      some (finite false (grouped_value 0 high) (pos 0)),
    )
unfolding parse_amount_range
parse_amount_range-band low high hl hh =
    ap range_of (strip-band low high hh)
    ∙ range_of-band low high (
      refl,
      All-append _ low (b' ' ∷ []) (Grouped-no_dash low (IsAmount-Grouped low hl)) (refl, tt),
    )
    ∙ ap₂ (λ a b. (a, b)) (to_number-dollar_space low hl) (to_number-space_dollar high hh)
