-- ===== src/Base/Calendar.antt =====
-- `datetime.date` of the proleptic Gregorian calendar: which dates there are, their order and their
-- ordinals.
use evnt_trden_public.Base.Tests.{leb, ltb, ◌==◌, if◌then◌else◌}
use Prim.Native.Nat.{ℕ, ◌+◌, ◌-◌, ◌*◌, ◌/◌, ◌%◌, zero, suc}
use mathlib.Core.Bool.{Bool, true, ◌&&◌, ◌||◌, not}
use mathlib.Core.Path.{◌≡◌, refl}
use mathlib.Core.List.{[], ◌∷◌, ◌++◌}
use mathlib.Core.Option.{Option, none, some}
use evnt_trden_public.Base.Strings.{Text, is_digit}

-- `datetime.date`
pub record Date : Type 0 where
  pub year : ℕ
  pub month : ℕ
  pub day : ℕ

unfoldable pub is_leap : ℕ → Bool
is_leap y = y % 4 == 0 && (not (y % 100 == 0) || y % 400 == 0)

unfoldable pub days_in_month : ℕ → ℕ → ℕ
unfolding is_leap
days_in_month y m =
    if m == 2
    then (if is_leap y then 29 else 28)
    else if m == 4 || m == 6 || m == 9 || m == 11
    then 30
    else 31

-- The dates that `date(…)` accepts.
unfoldable pub is_date : Date → Bool
unfolding days_in_month
is_date d =
    (leb 1 d.year && leb d.year 9999)
    && ((leb 1 d.month && leb d.month 12)
        && (leb 1 d.day && leb d.day (days_in_month d.year d.month)))

-- `a <= b`, `a < b`
unfoldable pub date_lt : Date → Date → Bool
date_lt a b =
    ltb a.year b.year
    || (a.year == b.year && (ltb a.month b.month || (a.month == b.month && ltb a.day b.day)))

days_before_month : ℕ → ℕ → ℕ
unfolding days_in_month
days_before_month y zero = 0
days_before_month y (suc zero) = 0
days_before_month y (suc (suc m)) = days_before_month y (suc m) + days_in_month y (suc m)

-- `toordinal()`: day 1 is the first of January of year 1.
unfoldable pub ordinal : Date → ℕ
unfolding days_before_month
ordinal d =
    let y = d.year - 1 in
    y * 365 + y / 4 - y / 100 + y / 400 + days_before_month d.year d.month + d.day

all_digits : Text → Bool
all_digits [] = true
all_digits (c ∷ t) = is_digit c && all_digits t

date_of : ℕ → ℕ → ℕ → Date
date_of y m d = record { year = y; month = m; day = d }

two : ℕ → ℕ → ℕ
two a b = (a - b'0') * 10 + (b - b'0')

two_digits : ℕ → Text
two_digits n = (b'0' + n / 10) ∷ (b'0' + n % 10) ∷ []

-- `isoformat()`: a year has four digits at most.
unfoldable pub isoformat : Date → Text
unfolding two_digits
isoformat d =
    two_digits (d.year / 100)
    ++ two_digits (d.year % 100)
    ++ b'-' ∷ (two_digits d.month ++ b'-' ∷ two_digits d.day)

-- `date.fromisoformat` of a text of the form YYYY-MM-DD; `none` is the `ValueError`.
unfoldable pub from_iso : Text → Option Date
unfolding two is_date all_digits date_of
from_iso (c ∷ d ∷ y ∷ z ∷ s ∷ m ∷ n ∷ t ∷ e ∷ f ∷ []) =
    let date = date_of (two c d * 100 + two y z) (two m n) (two e f) in
    if all_digits (c ∷ d ∷ y ∷ z ∷ m ∷ n ∷ e ∷ f ∷ []) && (s == b'-' && (t == b'-' && is_date date))
    then some date
    else none
from_iso _ = none

days_in_year : ℕ → ℕ
days_in_year y = if is_leap y then 366 else 365

-- The month of the `n`th day of a year, of the last `k` months.
month_loop : ℕ → ℕ → ℕ → ℕ → Date
unfolding days_in_month date_of
month_loop zero y m n = date_of y m n
month_loop (suc k) y m n =
    let rest = month_loop k y (m + 1) (n - days_in_month y m) in
    if leb n (days_in_month y m) then date_of y m n else rest

year_loop : ℕ → ℕ → ℕ → Date
unfolding days_in_year month_loop
year_loop zero y n = month_loop 11 y 1 n
year_loop (suc fuel) y n =
    let rest = year_loop fuel (y + 1) (n - days_in_year y) in
    if leb n (days_in_year y) then month_loop 11 y 1 n else rest

-- `date.fromordinal(n)`: a year has at least 365 days, which bounds the rounds.
unfoldable pub from_ordinal : ℕ → Date
unfolding year_loop
from_ordinal n = year_loop (n / 365) 1 n

from_ordinal_test : from_ordinal (ordinal (date_of 2024 2 29)) ≡ date_of 2024 2 29
unfolding from_ordinal ordinal date_of is_leap days_in_year
from_ordinal_test = refl

from_ordinal_end : from_ordinal (ordinal (date_of 2023 12 31)) ≡ date_of 2023 12 31
unfolding from_ordinal ordinal date_of is_leap days_in_year
from_ordinal_end = refl
