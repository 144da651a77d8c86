-- ===== src/Parsers/SenatePtr/Rows.antt =====
-- What the rows of a Senate report give.
use evnt_trden_public.Base.{
  ℕ, zero, suc, ◌+◌, ◌≤◌, ◌≡◌, refl, sym, ap, ◌∙◌, ◌⊎◌, inl, inr, ◌↔◌, ◌||◌, Option, none, some,
  List, [], ◌∷◌, length, if◌then◌else◌, Text, codes, is_empty, lower, strip, text_eq, dict_get,
  >>=-eq-some, of_some, arith,
}
use evnt_trden_public.Parsers.Amounts.{parse_amount_range}
use evnt_trden_public.Parsers.SenatePtr.{
  owner_codes, tx_type_codes, ParsedTransaction, Cells, cells_of, read_cells, add_row, parse_rows,
  parse_table, parse_ptr_html, extract_option_details, strip_option_details, clean_dash,
  dash_to_none, parse_date,
}

-- The text of cell `k` of a row, counted from 0.
abbrev pub cell : ℕ → List Text → Text
cell k [] = []
cell zero (c ∷ row) = c
cell (suc k) (c ∷ row) = cell k row

-- What a cell says that may be left empty or struck out by two dashes.
abbrev pub entry : Text → Option Text
entry raw =
    if is_empty (strip raw) || text_eq (strip raw) (codes "--") then none else some (strip raw)

-- The transaction that the cells of row `i` describe.
pub record Describes (i : ℕ) (row : List Text) (t : ParsedTransaction) : Type 0 where
  pub number : t.row_index ≡ i
  pub tx_date : parse_date (cell 1 row) ≡ some t.tx_date
  pub owner :
      t.owner
      ≡ dict_get (lower (strip (cell 2 row))) (
          (codes "self", codes "self")
          ∷ (codes "spouse", codes "spouse")
          ∷ (codes "joint", codes "joint")
          ∷ (codes "dependent child", codes "child")
          ∷ [])
  pub ticker : t.ticker ≡ entry (cell 3 row)
  pub name : t.asset_description_raw ≡ strip_option_details (cell 4 row)
  pub option :
      extract_option_details (cell 4 row)
      ≡ some (record { option_type = t.option_type; strike = t.strike; expiry = t.expiry })
  pub asset_type : t.asset_type ≡ entry (cell 5 row)
  pub tx_type :
      t.tx_type
      ≡ dict_get (lower (strip (cell 6 row))) (
          (codes "purchase", codes "purchase")
          ∷ (codes "sale (full)", codes "sale_full")
          ∷ (codes "sale (partial)", codes "sale_partial")
          ∷ (codes "exchange", codes "exchange")
          ∷ [])
  pub amounts : (t.amount_min, t.amount_max) ≡ parse_amount_range (cell 7 row)

-- The transactions of the rows from number `i` on: one for each row of at least nine cells, in order.
pub data Table : ℕ → List (List Text) → List ParsedTransaction → Type 0 where
  done : (i : ℕ) → Table i [] []
  short :
      {i : ℕ} {row : List Text} {rows : List (List Text)} {ts : List ParsedTransaction}
      → length row ≤ 8
      → Table (i + 1) rows ts
      → Table i (row ∷ rows) ts
  full :
      {i : ℕ} {row : List Text} {rows : List (List Text)} {t : ParsedTransaction}
      {ts : List ParsedTransaction}
      → 9 ≤ length row
      → Describes i row t
      → Table (i + 1) rows ts
      → Table i (row ∷ rows) (t ∷ ts)

-- The cells that are read, by their places.
abbrev cells_at : List Text → Cells
cells_at row = record {
  tx_date_raw = cell 1 row;
  owner_raw = cell 2 row;
  ticker_raw = cell 3 row;
  asset_name_raw = cell 4 row;
  asset_type_raw = cell 5 row;
  tx_type_raw = cell 6 row;
  amount_raw = cell 7 row;
}

-- A row is too short, or has its cells.
cells_of-cases :
    (row : List Text)
    → ((length row ≤ 8) × (cells_of row ≡ none))
      ⊎ ((9 ≤ length row) × (cells_of row ≡ some (cells_at row)))
unfolding cells_of
cells_of-cases [] = inl (omega arith, refl)
cells_of-cases (a ∷ []) = inl (omega arith, refl)
cells_of-cases (a ∷ b ∷ []) = inl (omega arith, refl)
cells_of-cases (a ∷ b ∷ c ∷ []) = inl (omega arith, refl)
cells_of-cases (a ∷ b ∷ c ∷ d ∷ []) = inl (omega arith, refl)
cells_of-cases (a ∷ b ∷ c ∷ d ∷ e ∷ []) = inl (omega arith, refl)
cells_of-cases (a ∷ b ∷ c ∷ d ∷ e ∷ f ∷ []) = inl (omega arith, refl)
cells_of-cases (a ∷ b ∷ c ∷ d ∷ e ∷ f ∷ g ∷ []) = inl (omega arith, refl)
cells_of-cases (a ∷ b ∷ c ∷ d ∷ e ∷ f ∷ g ∷ h ∷ []) = inl (omega arith, refl)
cells_of-cases (a ∷ b ∷ c ∷ d ∷ e ∷ f ∷ g ∷ h ∷ i ∷ row) = inr (omega arith, refl)

clean_dash-entry : (raw : Text) → clean_dash raw ≡ entry raw
unfolding clean_dash dash_to_none
clean_dash-entry raw = ground arith

read_cells-Describes :
    (i : ℕ) (row : List Text) {t : ParsedTransaction}
    → read_cells i (cells_at row) ≡ some t
    → Describes i row t
unfolding read_cells
read_cells-Describes i row h =
    let (details, option, h1) = >>=-eq-some (extract_option_details (cell 4 row)) _ h in
    let (date, read, h2) = >>=-eq-some (parse_date (cell 1 row)) _ h1 in
    rw (sym (of_some h2)) (record {
      number = refl;
      tx_date = read;
      owner = refl;
      ticker = clean_dash-entry (cell 3 row);
      name = refl;
      option = option;
      asset_type = clean_dash-entry (cell 5 row);
      tx_type = refl;
      amounts = refl;
    })

record_of :
    {i : ℕ} {row : List Text} {t : ParsedTransaction}
    → Describes i row t
    → t ≡ (record {
      row_index = i;
      owner = dict_get (lower (strip (cell 2 row))) owner_codes;
      asset_description_raw = strip_option_details (cell 4 row);
      ticker = clean_dash (cell 3 row);
      asset_type = clean_dash (cell 5 row);
      option_type = t.option_type;
      strike = t.strike;
      expiry = t.expiry;
      tx_type = dict_get (lower (strip (cell 6 row))) tx_type_codes;
      tx_date = t.tx_date;
      amount_min = (parse_amount_range (cell 7 row)).0;
      amount_max = (parse_amount_range (cell 7 row)).1;
    })
record_of {row = row} d = cc (clean_dash-entry (cell 3 row), clean_dash-entry (cell 5 row))

Describes-read_cells :
    (i : ℕ) (row : List Text) (t : ParsedTransaction)
    → Describes i row t
    → read_cells i (cells_at row) ≡ some t
unfolding read_cells
Describes-read_cells i row t d = rw d.option (rw d.tx_date (ap some (sym (record_of d))))

parse_rows-Table :
    (i : ℕ) (rows : List (List Text)) {ts : List ParsedTransaction}
    → parse_rows i rows ≡ some ts
    → Table i rows ts
unfolding parse_rows add_row
parse_rows-Table i [] h = rw (sym (of_some h)) (done i)
parse_rows-Table i (row ∷ rows) h = elim (cells_of-cases row) [
  | inl (few, e) ↦ short few (parse_rows-Table (i + 1) rows (rw e at h))
  | inr (enough, e) ↦
      let h0 = rw e at h in
      let (t, read, h1) = >>=-eq-some (read_cells i (cells_at row)) _ h0 in
      let (rest, later, h2) = >>=-eq-some (parse_rows (i + 1) rows) _ h1 in
      rw (sym (of_some h2))
        (full enough (read_cells-Describes i row read) (parse_rows-Table (i + 1) rows later))
]

Table-parse_rows :
    (i : ℕ) (rows : List (List Text)) (ts : List ParsedTransaction)
    → Table i rows ts
    → parse_rows i rows ≡ some ts
unfolding parse_rows add_row
Table-parse_rows i [] [] (done _) = refl
Table-parse_rows i [] (t ∷ ts) x = elim x [ ]
Table-parse_rows i (row ∷ rows) ts (short few later) = elim (cells_of-cases row) [
  | inl (_, e) ↦ rw e (Table-parse_rows (i + 1) rows ts later)
  | inr (enough, e) ↦ absurd (omega arith)
]
Table-parse_rows i (row ∷ rows) (t ∷ ts) (full enough d later) = elim (cells_of-cases row) [
  | inl (few, e) ↦ absurd (omega arith)
  | inr (_, e) ↦
      rw e (rw (Describes-read_cells i row t d) (rw (Table-parse_rows (i + 1) rows ts later) refl))
]

-- Where a page has a table, reading it gives these transactions just if they are those of its rows with
-- at least nine cells, one for each in order, whose number is that of the row, counted from 0, and whose
-- date, owner, ticker, asset, asset type, transaction type and amounts are read from the cells 1 to 7.
pub parse_ptr_html-Table :
    (table_rows : Text → Option (List (List Text))) (html : Text) {rows : List (List Text)}
    → table_rows html ≡ some rows
    → (ts : List ParsedTransaction) → (parse_ptr_html table_rows html ≡ some ts) ↔ Table 0 rows ts
unfolding parse_ptr_html parse_table
parse_ptr_html-Table table_rows html {rows} table ts =
    let same : parse_ptr_html table_rows html ≡ parse_rows 0 rows = ap parse_table table in
    (λ h. parse_rows-Table 0 rows (sym same ∙ h), λ d. same ∙ Table-parse_rows 0 rows ts d)
