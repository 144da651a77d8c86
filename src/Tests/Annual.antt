-- ===== src/Tests/Annual.antt =====
-- A House annual report of one page: Schedule A with two holdings, and another schedule.
use evnt_trden_public.Base.{
  ◌≡◌, refl, some, List, [], ◌∷◌, ◌++◌, codes, map, All, length, range_from,
}
use evnt_trden_public.Parsers.HousePtr.{Word}
use evnt_trden_public.Parsers.HousePtr.Lines.{group_lines}
use evnt_trden_public.Parsers.HouseFd.{
  parse_schedule_a, parse_lines, report_lines, report_year, start,
}
use evnt_trden_public.Parsers.HouseFd.Holdings.{HasOwner, parse_schedule_a-IsNumbered}
use evnt_trden_public.Parsers.HouseFd.Section.{
  NotA, NotOther, IsA, IsOther, parse_schedule_a-section,
}
use evnt_trden_public.Tests.Reports.{word}
use evnt_trden_public.Base.Sort.{sorted}
use evnt_trden_public.Parsers.HousePtr.Lines.{near, x0_le}
use evnt_trden_public.Base.{text_eq, lower, is_digit}
use evnt_trden_public.Parsers.HouseFd.{is_a, schedule_letter}
use evnt_trden_public.Base.{ends_with}
use evnt_trden_public.Base.Regex.{match_start, word_any_case}
use evnt_trden_public.Base.{rstrip_code}
use evnt_trden_public.Parsers.HouseFd.Section.{is_other}
use evnt_trden_public.Parsers.HouseFd.{
  kind_of, header_columns, is_footnote, is_annotation, all_empty, zones_of, act, add_line,
  add_zones, columns_of, ends_schedule, first_x, flush, opens_row, owner_code, second_x,
  starts_value,
}
use evnt_trden_public.Parsers.HousePtr.Parse.{line_text}
use evnt_trden_public.Base.{
  join, has_code, ◌-ℤ◌, dict_get, is_lower, is_space, is_upper, lower_code, lstrip, non_empty,
  one_of, remove_code, rstrip, split_once, starts_with, strip, upper, upper_code,
}
use evnt_trden_public.Base.Float.{float, scan_digits}
use evnt_trden_public.Base.Regex.{find_match, group_of, is_word, match_at}
use evnt_trden_public.Parsers.Amounts.{parse_amount_range, to_number}
use evnt_trden_public.Parsers.HouseFd.Row.{finalize, holder, joined, value_open}
use evnt_trden_public.Parsers.HousePtr.Row.{classify_asset}
use mathlib.Core.Bool.{xor}

abbrev year_line : List Word
year_line =
    word (codes "Filing") 10000 10000
    ∷ word (codes "Year:") 40000 10000
    ∷ word (codes "2020") 70000 10000
    ∷ []

abbrev a_line : List Word
a_line = word (codes "ScHeDule") 10000 50000 ∷ word (codes "a:") 60000 50000 ∷ []

abbrev section : List (List Word)
section =
    (word (codes "asset") 10000 60000
      ∷ word (codes "owner") 200000 60000
      ∷ word (codes "value") 250000 60000
      ∷ word (codes "income") 350000 60000
      ∷ word (codes "income") 430000 60000
      ∷ word (codes "tx.") 520000 60000
      ∷ [])
    ∷ (word (codes "Apple") 10000 70000
        ∷ word (codes "(AAPL)") 50000 70000
        ∷ word (codes "[ST]") 90000 70000
        ∷ word (codes "SP") 200000 70000
        ∷ word (codes "$100,001") 250000 70000
        ∷ word (codes "-") 300000 70000
        ∷ word (codes "Dividends") 350000 70000
        ∷ [])
    ∷ (word (codes "$250,000") 250000 80000 ∷ [])
    ∷ (word (codes "DESCRIPTION:") 10000 90000 ∷ word (codes "x") 60000 90000 ∷ [])
    ∷ (word (codes "Cash") 10000 100000 ∷ word (codes "None") 250000 100000 ∷ [])
    ∷ []

abbrev b_line : List Word
b_line = word (codes "Schedule") 10000 110000 ∷ word (codes "B:") 60000 110000 ∷ []

abbrev page : List Word
page =
    word (codes "Filing") 10000 10000
    ∷ word (codes "Year:") 40000 10000
    ∷ word (codes "2020") 70000 10000
    ∷ word (codes "ScHeDule") 10000 50000
    ∷ word (codes "a:") 60000 50000
    ∷ word (codes "asset") 10000 60000
    ∷ word (codes "owner") 200000 60000
    ∷ word (codes "value") 250000 60000
    ∷ word (codes "income") 350000 60000
    ∷ word (codes "income") 430000 60000
    ∷ word (codes "tx.") 520000 60000
    ∷ word (codes "Apple") 10000 70000
    ∷ word (codes "(AAPL)") 50000 70000
    ∷ word (codes "[ST]") 90000 70000
    ∷ word (codes "SP") 200000 70000
    ∷ word (codes "$100,001") 250000 70000
    ∷ word (codes "-") 300000 70000
    ∷ word (codes "Dividends") 350000 70000
    ∷ word (codes "$250,000") 250000 80000
    ∷ word (codes "DESCRIPTION:") 10000 90000
    ∷ word (codes "x") 60000 90000
    ∷ word (codes "Cash") 10000 100000
    ∷ word (codes "None") 250000 100000
    ∷ word (codes "Schedule") 10000 110000
    ∷ word (codes "B:") 60000 110000
    ∷ []

abbrev pub pages : List (List Word)
pages = page ∷ []

lines_test : report_lines pages ≡ (year_line ∷ []) ++ a_line ∷ (section ++ b_line ∷ [])
unfolding report_lines group_lines sorted near x0_le
lines_test = refl

owners_test :
    map (λ h. h.owner) (parse_lines (a_line ∷ section) start) ≡ codes "spouse" ∷ codes "self" ∷ []
unfolding parse_lines kind_of schedule_letter ends_with match_start word_any_case text_eq lower
    rstrip_code header_columns is_footnote line_text join is_annotation has_code all_empty zones_of
    ◌-ℤ◌ float scan_digits find_match group_of is_word match_at dict_get is_digit is_lower is_space
    is_upper lower_code lstrip non_empty one_of remove_code rstrip split_once starts_with strip
    upper upper_code parse_amount_range to_number finalize holder joined value_open act add_line
    add_zones columns_of ends_schedule first_x flush opens_row owner_code second_x starts_value
    classify_asset xor
owners_test = refl

year_test : report_year pages ≡ some 2020
unfolding report_year group_lines sorted near x0_le text_eq lower is_digit
year_test = refl

parse_schedule_a-IsNumbered_example :
    (map (λ h. h.row_index) (parse_schedule_a pages)
      ≡ range_from 0 (length (parse_schedule_a pages)))
    × All HasOwner (parse_schedule_a pages)
parse_schedule_a-IsNumbered_example = parse_schedule_a-IsNumbered pages

before-NotA : All NotA (year_line ∷ [])
unfolding NotA is_a schedule_letter ends_with match_start word_any_case
before-NotA = (refl, tt)

a_line-IsA : IsA a_line
unfolding IsA is_a schedule_letter ends_with match_start word_any_case text_eq lower rstrip_code
a_line-IsA = refl

b_line-IsOther : IsOther b_line
unfolding IsOther is_other schedule_letter ends_with match_start word_any_case text_eq lower
    rstrip_code
b_line-IsOther = refl

section-NotOther : All NotOther section
unfolding NotOther is_other schedule_letter ends_with
section-NotOther = (refl, (refl, (refl, (refl, (refl, tt)))))

parse_schedule_a-section_example : parse_schedule_a pages ≡ parse_lines (a_line ∷ section) start
parse_schedule_a-section_example =
    parse_schedule_a-section pages (year_line ∷ []) section [] a_line b_line lines_test before-NotA
      a_line-IsA section-NotOther b_line-IsOther
