-- ===== src/Tests/Reports.antt =====
-- A report of one page, its lines, its columns and its transactions.
use evnt_trden_public.Base.{
  ℕ, pos, ◌≡◌, refl, none, some, false, List, [], ◌∷◌, Text, codes, arith, map, All, range_from,
}
use mathlib.Core.List.{flatten, Perm}
use evnt_trden_public.Base.Float.{finite}
use evnt_trden_public.Parsers.Amounts.{parse_amount_range}
use evnt_trden_public.Parsers.Amounts.Bands.{IsAmount, band, grouped_value, parse_amount_range-band}
use evnt_trden_public.Parsers.HousePtr.{Word, ColumnBounds, ParsedTransaction}
use evnt_trden_public.Parsers.HousePtr.Lines.{group_lines}
use evnt_trden_public.Parsers.HousePtr.Lines.Groups.{
  flatten-group_lines, group_lines-AreLines, AreLines,
}
use evnt_trden_public.Parsers.HousePtr.Columns.{detect_column_bounds}
use evnt_trden_public.Parsers.HousePtr.Parse.{parse_ptr_transactions}
use evnt_trden_public.Parsers.HousePtr.Parse.Starts.{report_starts}
use evnt_trden_public.Parsers.HousePtr.Parse.Rows.{parse_ptr_transactions-rows}
use evnt_trden_public.Parsers.HousePtr.Parse.Contract.{
  Ordered, NoNewline, IsWellFormed, parse_ptr_transactions-IsWellFormed,
}
use evnt_trden_public.Base.{
  any, text_eq, abs, ◌+ℤ◌, ◌-ℤ◌, dict_get, has_code, has_text, is_digit, is_lower, is_space,
  is_upper, lower, lower_code, lstrip, one_of, remove_code, rstrip, rstrip_code, split_once,
  starts_with, strip, upper, upper_code, join,
}
use evnt_trden_public.Base.Float.{float, scan_digits}
use evnt_trden_public.Base.Regex.{
  find_match, group_of, is_word, match_at, match_start, word_any_case,
}
use evnt_trden_public.Base.Sort.{place, sorted}
use evnt_trden_public.Parsers.Amounts.{to_number}
use evnt_trden_public.Parsers.HousePtr.Columns.{
  header_word, header_bounds, position, find_column_bounds,
}
use evnt_trden_public.Parsers.HousePtr.Lines.{reading_le, near, x0_le, split_lines}
use evnt_trden_public.Parsers.HousePtr.Parse.{
  act, annotation_label, flush, open_row, other_line, run_lines, run_pages, step, kind_of,
  is_header_line, line_text, line_starts_transaction, is_start_word,
}
use evnt_trden_public.Parsers.HousePtr.Patterns.{parse_option_details, to_iso_date, two_digits}
use evnt_trden_public.Parsers.HousePtr.Row.{
  add_description_words, classify_asset, describe_word, details_of, extend, extend_word, finalize,
  from_line, iso_or_none, matches, owner_of, place_word, tx_type_of,
}

abbrev pub word : Text → ℕ → ℕ → Word
word text x0 top = record { text = text; x0 = pos x0; top = pos top }

abbrev pub page : List Word
page =
    word (codes "ID") 20000 100000
    ∷ word (codes "Owner") 60000 100500
    ∷ word (codes "Asset") 105000 100000
    ∷ word (codes "Transaction") 265000 100000
    ∷ word (codes "Date") 330000 100000
    ∷ word (codes "Notification") 390000 100000
    ∷ word (codes "Amount") 450000 100000
    ∷ word (codes "SP") 60000 150000
    ∷ word (codes "Apple") 105000 150000
    ∷ word (codes "(AAPL)") 140000 151000
    ∷ word (codes "[ST]") 180000 150000
    ∷ word (codes "S") 265000 150000
    ∷ word (codes "01/15/2024") 330000 150000
    ∷ word (codes "01/20/2024") 390000 150000
    ∷ word (codes "$1,001") 450000 150000
    ∷ word (codes "-") 480000 150000
    ∷ word (codes "$15,000") 490000 150000
    ∷ []

abbrev bounds : ColumnBounds
bounds = detect_column_bounds (page ∷ [])

abbrev pub apple : ParsedTransaction
apple = record {
  row_index = 0;
  owner = some (codes "spouse");
  asset_description_raw = codes "Apple (AAPL) [ST]";
  ticker = some (codes "AAPL");
  asset_type = some (codes "ST");
  option_type = none;
  strike = none;
  expiry = none;
  tx_type = some (codes "sale_full");
  tx_date = some (codes "2024-01-15");
  notification_date = some (codes "2024-01-20");
  amount_min = some (finite false 1001 (pos 0));
  amount_max = some (finite false 15000 (pos 0));
  source_transaction_id = none;
}

parse_test : parse_ptr_transactions (page ∷ []) ≡ some (apple ∷ [])
unfolding parse_ptr_transactions text_eq float scan_digits abs ◌+ℤ◌ ◌-ℤ◌ find_match group_of is_word
    match_at match_start word_any_case place sorted dict_get has_code has_text is_digit is_lower
    is_space is_upper lower lower_code lstrip one_of remove_code rstrip rstrip_code split_once
    starts_with strip upper upper_code parse_amount_range to_number header_word header_bounds
    position find_column_bounds detect_column_bounds reading_le near x0_le group_lines split_lines
    act annotation_label flush open_row other_line run_lines run_pages step kind_of is_header_line
    line_text join line_starts_transaction is_start_word parse_option_details to_iso_date two_digits
    add_description_words classify_asset describe_word details_of extend extend_word finalize
    from_line iso_or_none matches owner_of place_word tx_type_of
parse_test = refl

bounds_test : bounds.asset_max_x ≡ pos 262000
unfolding detect_column_bounds find_column_bounds group_lines sorted place reading_le split_lines
    abs ◌-ℤ◌ lower lower_code is_upper dict_get near header_bounds position x0_le text_eq
    header_word
bounds_test = refl

bounds-Ordered : Ordered bounds
bounds-Ordered =
    unfold detect_column_bounds find_column_bounds group_lines sorted place reading_le split_lines
      abs ◌-ℤ◌ lower lower_code is_upper dict_get near header_bounds position x0_le text_eq
      header_word in
    record { id_first = omega arith; owner_first = omega arith }

NoNewline-has_code : (t : Text) → has_code 10 t ≡ false → NoNewline t
unfolding has_code
NoNewline-has_code [] h = tt
NoNewline-has_code (c ∷ t) h = ground (arith, NoNewline-has_code t)

NoNewline-any :
    (words : List Word)
    → any (λ w. has_code 10 w.text) words ≡ false
    → All (λ w. NoNewline w.text) words
NoNewline-any [] h = tt
NoNewline-any (w ∷ words) h = ground (arith, NoNewline-has_code w.text, NoNewline-any words)

page-NoNewline : All (All (λ w. NoNewline w.text)) (page ∷ [])
page-NoNewline = (NoNewline-any page (unfold has_code in refl), tt)

parse_ptr_transactions-rows_example :
    map (λ t. t.row_index) (apple ∷ []) ≡ range_from 0 (report_starts bounds (page ∷ []))
parse_ptr_transactions-rows_example =
    parse_ptr_transactions-rows (page ∷ []) (apple ∷ []) parse_test

parse_ptr_transactions-IsWellFormed_example : All IsWellFormed (apple ∷ [])
parse_ptr_transactions-IsWellFormed_example =
    parse_ptr_transactions-IsWellFormed (page ∷ []) (apple ∷ []) bounds-Ordered page-NoNewline
      parse_test

flatten-group_lines_example : Perm (flatten (group_lines page)) page
flatten-group_lines_example = flatten-group_lines page

group_lines-AreLines_example : AreLines (group_lines page)
group_lines-AreLines_example = group_lines-AreLines page

low-IsAmount : IsAmount (codes "1,001")
unfolding is_digit
low-IsAmount = (refl, (refl, (refl, (refl, (refl, tt)))))

high-IsAmount : IsAmount (codes "2,500")
unfolding is_digit
high-IsAmount = (refl, (refl, (refl, (refl, (refl, tt)))))

parse_amount_range-band_example : parse_amount_range (band (codes "1,001") (codes "2,500")) ≡ (
  some (finite false (grouped_value 0 (codes "1,001")) (pos 0)),
  some (finite false (grouped_value 0 (codes "2,500")) (pos 0)),
)
parse_amount_range-band_example =
    parse_amount_range-band (codes "1,001") (codes "2,500") low-IsAmount high-IsAmount
