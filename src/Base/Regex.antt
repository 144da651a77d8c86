-- ===== src/Base/Regex.antt =====
-- The part of Python's `re` that the program uses, as a backtracking matcher. Every repetition of the
-- program's patterns is of one character class, so the matcher recurs on the pattern and the text.
use Prim.Native.Nat.{ℕ, pred, ◌-◌}
use mathlib.Core.Bool.{Bool, true, false, ◌&&◌, ◌||◌, xor}
use mathlib.Core.List.{List, [], ◌∷◌, ◌++◌}
use mathlib.Core.Option.{Option, none, some}
use evnt_trden_public.Base.Tests.{◌==◌, if◌then◌else◌, or_else}
use evnt_trden_public.Base.Lists.{length, take}
use evnt_trden_public.Base.Strings.{Text, is_digit, is_upper, is_lower, lower_code}

abbrev pub Class : Type 0
Class = ℕ → Bool

-- A pattern. `rep p lo hi` is `p{lo,hi}`, taken as long as possible first; `lazy p` is `p*?`, taken
-- as short as possible first. `ends` is `$`, which also holds before a last newline.
pub data Regex : Type 0 where
  nothing : Regex
  one : Class → Regex
  rep : Class → ℕ → Option ℕ → Regex
  lazy : Class → Regex
  both : Regex → Regex → Regex
  either : Regex → Regex → Regex
  group : ℕ → Regex → Regex
  ends : Regex
  edge : Regex

-- Where the matcher stands: the character before, the text that is left, the groups found so far.
pub record Cursor : Type 0 where
  pub before : Option ℕ
  pub rest : Text
  pub groups : List (ℕ × Text)

abbrev Found : Type 0
Found = Option Cursor

step_to : ℕ → Text → Cursor → Cursor
step_to c s m = record { before = some c; rest = s; groups = m.groups }

-- `\w`, of ASCII
unfoldable pub is_word : ℕ → Bool
unfolding is_digit is_upper is_lower
is_word c = is_digit c || is_upper c || is_lower c || c == b'_'

word_before : Option ℕ → Bool
unfolding is_word
word_before none = false
word_before (some c) = is_word c

word_after : Text → Bool
unfolding is_word
word_after [] = false
word_after (c ∷ s) = is_word c

at_end : Text → Bool
at_end [] = true
at_end (c ∷ []) = c == 10
at_end (c ∷ d ∷ s) = false

may_take : Option ℕ → Bool
may_take none = true
may_take (some n) = if n == 0 then false else true

less_one : Option ℕ → Option ℕ
less_one none = none
less_one (some n) = some (pred n)

rep_match : Class → ℕ → Option ℕ → Text → Cursor → (Cursor → Found) → Found
unfolding step_to may_take less_one
rep_match p lo hi [] m k = if lo == 0 then k m else none
rep_match p lo hi (c ∷ s) m k =
    let more = rep_match p (pred lo) (less_one hi) s (step_to c s m) k in
    let longer = if p c && may_take hi then more else none in
    let here = if lo == 0 then k m else none in or_else longer here

lazy_match : Class → Text → Cursor → (Cursor → Found) → Found
unfolding step_to
lazy_match p [] m k = k m
lazy_match p (c ∷ s) m k =
    let more = lazy_match p s (step_to c s m) k in or_else (k m) (if p c then more else none)

one_match : Class → Text → Cursor → (Cursor → Found) → Found
unfolding step_to
one_match p [] m k = none
one_match p (c ∷ s) m k = if p c then k (step_to c s m) else none

-- Ends the group `n` that began at `s`.
close_group : ℕ → Text → Cursor → Cursor
close_group n s m = record m { groups = (n, take (length s - length m.rest) s) ∷ m.groups }

run : Regex → Cursor → (Cursor → Found) → Found
unfolding rep_match lazy_match one_match close_group at_end word_before word_after
run nothing m k = k m
run (one p) m k = one_match p m.rest m k
run (rep p lo hi) m k = rep_match p lo hi m.rest m k
run (lazy p) m k = lazy_match p m.rest m k
run (both r s) m k = run r m (λ m'. run s m' k)
run (either r s) m k = or_else (run r m k) (run s m k)
run (group n r) m k = run r m (λ m'. k (close_group n m.rest m'))
run ends m k = if at_end m.rest then k m else none
run edge m k = if xor (word_before m.before) (word_after m.rest) then k m else none

-- `re.match`: from the start of the text.
unfoldable pub match_at : Regex → Option ℕ → Text → Found
unfolding run
match_at r before s = run r (record { before = before; rest = s; groups = [] }) some

unfoldable pub match_start : Regex → Text → Found
unfolding match_at
match_start r s = match_at r none s

-- `re.search`: from the leftmost place where the pattern fits.
search_from : Regex → Option ℕ → Text → Found
unfolding match_at
search_from r before [] = match_at r before []
search_from r before (c ∷ s) =
    let later = search_from r (some c) s in or_else (match_at r before (c ∷ s)) later

unfoldable pub find_match : Regex → Text → Found
unfolding search_from
find_match r s = search_from r none s

find_group : ℕ → List (ℕ × Text) → Text
find_group n [] = []
find_group n ((k, t) ∷ gs) = if k == n then t else find_group n gs

-- `match.group(n)`
unfoldable pub group_of : ℕ → Cursor → Text
unfolding find_group
group_of n m = find_group n m.groups

-- A class that ignores the case of ASCII letters: `p` is asked about the lower-case letter.
abbrev pub any_case : Class → Class
any_case p c = p (lower_code c)

abbrev pub is_code : ℕ → Class
is_code k c = c == k

-- A literal text, letter by letter, in any case: `t` is written in lower case.
unfoldable pub word_any_case : Text → Regex
unfolding lower_code
word_any_case [] = nothing
word_any_case (k ∷ t) = both (one (any_case (is_code k))) (word_any_case t)

-- A literal text.
unfoldable pub word : Text → Regex
word [] = nothing
word (k ∷ t) = both (one (is_code k)) (word t)

abbrev pub optional : Class → Regex
optional p = rep p 0 (some 1)

abbrev pub star : Class → Regex
star p = rep p 0 none

abbrev pub plus : Class → Regex
plus p = rep p 1 none

infixr 60 ◌⊙◌
-- Patterns one after the other.
abbrev pub ◌⊙◌ : Regex → Regex → Regex
r ⊙ s = both r s

matched_length : Text → Found → ℕ
matched_length s none = 0
matched_length s (some m) = length s - length m.rest

-- `r.sub(by, s)` for a pattern that fits no empty text: `skip` characters belong to the last match.
sub_from : Regex → Text → ℕ → Option ℕ → Text → Text
unfolding match_at matched_length
sub_from r by skip before [] = []
sub_from r by skip before (c ∷ s) =
    let n = matched_length (c ∷ s) (match_at r before (c ∷ s)) in
    let skipped = sub_from r by (pred skip) (some c) s in
    let kept = c ∷ sub_from r by 0 (some c) s in
    let replaced = by ++ sub_from r by (pred n) (some c) s in
    if skip == 0 then (if n == 0 then kept else replaced) else skipped

unfoldable pub sub : Regex → Text → Text → Text
unfolding sub_from
sub r by s = sub_from r by 0 none s

-- The same for a pattern that fits at the start only.
replace_start : Text → Text → Found → Text
replace_start by s none = s
replace_start by s (some m) = by ++ m.rest

unfoldable pub sub_start : Regex → Text → Text → Text
unfolding replace_start
sub_start r by s = replace_start by s (match_start r s)
