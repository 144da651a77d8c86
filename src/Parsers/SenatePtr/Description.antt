-- ===== src/Parsers/SenatePtr/Description.antt =====
-- The details of an option are taken out of the description of the asset.
use evnt_trden_public.Base.{
  ℕ, ◌≡◌, refl, ap, ◌∙◌, true, false, Option, none, some, List, [], ◌∷◌, Text, codes, >>=-eq-some,
  of_some, arith, starts_with, has_text, lstrip, rstrip, strip, All, ◌+◌,
}
use mathlib.Core.Path.{subst}
use evnt_trden_public.Parsers.SenatePtr.{
  ParsedTransaction, Cells, cells_of, read_cells, add_row, parse_rows, parse_table, parse_ptr_html,
  before_text, strip_option_details,
}

-- What begins the text before the first `t` begins the whole text.
starts_with-before_text :
    (t s u : Text) → starts_with (before_text t s) u ≡ true → starts_with s u ≡ true
unfolding before_text starts_with
starts_with-before_text t [] u h = h
starts_with-before_text t (c ∷ s) [] h = refl
starts_with-before_text t (c ∷ s) (b ∷ u) h = ground (arith, starts_with-before_text t s u)

has_text-before_text : (k : ℕ) (t s : Text) → has_text (k ∷ t) (before_text (k ∷ t) s) ≡ false
unfolding before_text has_text starts_with
has_text-before_text k t [] = refl
has_text-before_text k t (c ∷ s) =
    ground (arith, has_text-before_text k t s, starts_with-before_text (k ∷ t) s t)

has_text-lstrip : (t s : Text) → has_text t s ≡ false → has_text t (lstrip s) ≡ false
unfolding lstrip has_text
has_text-lstrip t [] h = h
has_text-lstrip t (c ∷ s) h = ground (arith, has_text-lstrip t s)

starts_with-rstrip : (s u : Text) → starts_with (rstrip s) u ≡ true → starts_with s u ≡ true
unfolding rstrip starts_with
starts_with-rstrip [] u h = h
starts_with-rstrip (c ∷ s) [] h = refl
starts_with-rstrip (c ∷ s) (b ∷ u) h = ground (arith, starts_with-rstrip s u)

has_text-rstrip :
    (k : ℕ) (t s : Text) → has_text (k ∷ t) s ≡ false → has_text (k ∷ t) (rstrip s) ≡ false
unfolding rstrip has_text starts_with
has_text-rstrip k t [] h = h
has_text-rstrip k t (c ∷ s) h = ground (arith, has_text-rstrip k t s, starts_with-rstrip s t)

has_text-strip_option_details :
    (s : Text) → has_text (codes "Option Type:") (strip_option_details s) ≡ false
unfolding strip_option_details strip
has_text-strip_option_details s =
    has_text-rstrip _ _ _ (has_text-lstrip _ _ (has_text-before_text _ _ s))

-- The description of the asset does not hold the label of the details.
unfoldable pub IsBare : ParsedTransaction → Type 0
IsBare t = has_text (codes "Option Type:") t.asset_description_raw ≡ false

read_cells-description :
    (i : ℕ) (c : Cells) {t : ParsedTransaction}
    → read_cells i c ≡ some t
    → t.asset_description_raw ≡ strip_option_details c.asset_name_raw
unfolding read_cells
read_cells-description i c h = ground arith

read_cells-IsBare : (i : ℕ) (c : Cells) {t : ParsedTransaction} → read_cells i c ≡ some t → IsBare t
unfolding IsBare
read_cells-IsBare i c h =
    ap (has_text (codes "Option Type:")) (read_cells-description i c h)
    ∙ has_text-strip_option_details c.asset_name_raw

add_row-IsBare :
    (k : ℕ) (o : Option Cells) (later : Option (List ParsedTransaction))
    {ts : List ParsedTransaction}
    → add_row o k later ≡ some ts
    → ((rest : List ParsedTransaction) → later ≡ some rest → All IsBare rest)
    → All IsBare ts
unfolding add_row
add_row-IsBare k none later {ts} h bare = bare ts h
add_row-IsBare k (some c) later h bare =
    let (t, read, h') = >>=-eq-some (read_cells k c) _ h in
    let (rest, e, h'') = >>=-eq-some later _ h' in
    subst (All IsBare) (of_some h'') (read_cells-IsBare k c read, bare rest e)

parse_rows-IsBare :
    (k : ℕ) (rows : List (List Text)) {ts : List ParsedTransaction}
    → parse_rows k rows ≡ some ts
    → All IsBare ts
unfolding parse_rows
parse_rows-IsBare k [] h = subst (All IsBare) (of_some h) tt
parse_rows-IsBare k (row ∷ rows) h =
    add_row-IsBare k (cells_of row) (parse_rows (k + 1) rows) h
      (λ rest. parse_rows-IsBare (k + 1) rows)

parse_table-IsBare :
    (table : Option (List (List Text))) {ts : List ParsedTransaction}
    → parse_table table ≡ some ts
    → All IsBare ts
unfolding parse_table
parse_table-IsBare none h = subst (All IsBare) (of_some h) tt
parse_table-IsBare (some rows) h = parse_rows-IsBare 0 rows h

-- No transaction of a Senate report that is read without an exception has "Option Type:", in this
-- case, in the description of its asset.
pub parse_ptr_html-IsBare :
    (table_rows : Text → Option (List (List Text))) (html : Text) {ts : List ParsedTransaction}
    → parse_ptr_html table_rows html ≡ some ts
    → All IsBare ts
unfolding parse_ptr_html
parse_ptr_html-IsBare table_rows html h = parse_table-IsBare (table_rows html) h
