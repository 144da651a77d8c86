-- ===== src/Tests/Senate.antt =====
-- A Senate report with an option, a short row and a sale.
use evnt_trden_public.Base.{
  map, map_option, All, ◌≡◌, ◌↔◌, refl, Option, none, some, List, [], ◌∷◌, Text, codes, strip,
}
use evnt_trden_public.Base.Regex.{find_match}
use evnt_trden_public.Parsers.SenatePtr.{
  ParsedTransaction, parse_ptr_html, strip_option_details, extract_option_details, read_us_date,
}
use evnt_trden_public.Parsers.SenatePtr.Rows.{Table, parse_ptr_html-Table}
use evnt_trden_public.Parsers.SenatePtr.Description.{IsBare, parse_ptr_html-IsBare}
use evnt_trden_public.Parsers.SenatePtr.{parse_rows, cells_of, read_cells, parse_date}
use evnt_trden_public.Base.Regex.{word_any_case, group_of}
use evnt_trden_public.Base.{is_space, split_once}
use evnt_trden_public.Base.Calendar.{from_iso}
use evnt_trden_public.Base.{lower}
use evnt_trden_public.Base.{starts_with}

abbrev option_row : List Text
option_row =
    codes "1"
    ∷ codes "07/02/2026"
    ∷ codes "Spouse"
    ∷ codes "--"
    ∷ codes "Apple Inc Option Type: Call Strike price:$75.00 Expires:2026-08-21"
    ∷ codes "Stock Option"
    ∷ codes "Purchase"
    ∷ codes "$1,001 - $15,000"
    ∷ codes "--"
    ∷ []

abbrev short_row : List Text
short_row = codes "no rows" ∷ []

abbrev sale_row : List Text
sale_row =
    codes "2"
    ∷ codes "7/ 3/2026"
    ∷ codes "Self"
    ∷ codes "MSFT"
    ∷ codes "Microsoft"
    ∷ codes "Stock"
    ∷ codes "Sale (Full)"
    ∷ codes "$1,001 - $15,000"
    ∷ codes "--"
    ∷ []

abbrev rows : List (List Text)
rows = option_row ∷ short_row ∷ sale_row ∷ []

abbrev pub table_rows : Text → Option (List (List Text))
table_rows html = some rows

rows_or_none : Option (List ParsedTransaction) → List ParsedTransaction
rows_or_none none = []
rows_or_none (some ts) = ts

abbrev results : List ParsedTransaction
unfolding parse_ptr_html rows_or_none
results = rows_or_none (parse_ptr_html table_rows [])

parsed : parse_ptr_html table_rows [] ≡ some results
unfolding parse_ptr_html parse_rows cells_of read_cells extract_option_details find_match
    word_any_case is_space from_iso group_of parse_date strip read_us_date split_once results
parsed = refl

numbered : map (λ t. t.row_index) results ≡ 0 ∷ 2 ∷ []
unfolding parse_ptr_html results parse_rows cells_of read_cells extract_option_details find_match
    word_any_case is_space from_iso group_of parse_date strip read_us_date split_once
numbered = refl

-- A label in another case is read but stays in the description.
lower_case_label :
    map_option
      (λ d. d.option_type)
      (extract_option_details (codes "X option type: put strike price: $5 expires: 2026-08-21"))
    ≡ some (some (codes "put"))
unfolding extract_option_details find_match word_any_case is_space from_iso group_of lower
lower_case_label = refl

lower_case_stays : strip_option_details (codes "X option type:") ≡ codes "X option type:"
unfolding strip_option_details strip starts_with
lower_case_stays = refl

parse_ptr_html-Table_example : (parse_ptr_html table_rows [] ≡ some results) ↔ Table 0 rows results
parse_ptr_html-Table_example = parse_ptr_html-Table table_rows [] refl results

-- The table's two full rows give two transactions.
table : Table 0 rows results
table = (parse_ptr_html-Table table_rows [] refl results).0 parsed

parse_ptr_html-IsBare_example : All IsBare results
parse_ptr_html-IsBare_example = parse_ptr_html-IsBare table_rows [] parsed
