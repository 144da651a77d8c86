-- ===== src/Ingest/Messages.antt =====
-- notify_parsed_transactions and what it calls, of src/congress_collector/ingest/house_ptrs.py and
-- ingest/senate_ptrs.py, whose code is the same but for the link and the chamber's name. The message is
-- a value; its sending, which may fail without effect, is outside.
pub mod Sent
use evnt_trden_public.Base.{
  ℕ, ◌-◌, Bool, true, false, ◌&&◌, Option, none, some, ◌>>=◌, List, [], ◌∷◌, ◌++◌, map, keep, take,
  length, ltb, leb, ◌==◌, if◌then◌else◌, Text, codes, text_eq, one_of, join, is_empty, value_or,
  dict_get, non_empty, starts_with, drop, map_option,
}
use evnt_trden_public.Base.Calendar.{Date}
use evnt_trden_public.Base.Decimal.{print_ℕ}
use evnt_trden_public.Base.Float.{Float}
use evnt_trden_public.Base.Sort.{sorted}
use evnt_trden_public.Db.{Filing, Transaction, Db}
use evnt_trden_public.Ingest.House.{default_precision_s}
use evnt_trden_public.Sources.House.{pdf_url_for}
use evnt_trden_public.Sources.Senate.{ptr_url_for}

abbrev pub notify_max_lines : ℕ
notify_max_lines = 15

abbrev pub max_committees_shown : ℕ
max_committees_shown = 3

abbrev pub tx_labels : List (Text × Text)
tx_labels =
    (codes "purchase", codes "BUY")
    ∷ (codes "sale_full", codes "SELL")
    ∷ (codes "sale_partial", codes "SELL (partial)")
    ∷ (codes "exchange", codes "EXCHANGE")
    ∷ []

-- A politician, with the rows of the query for his committees: their names and his titles.
pub record Member : Type 0 where
  pub full_name : Text
  pub party : Option Text
  pub state : Option Text
  pub committees : List (Text × Option Text)

-- `_committee_labels`
unfoldable pub committee_label : Text × Option Text → Text
committee_label (name, none) = name
committee_label (name, some []) = name
committee_label (name, some (c ∷ t)) = name ++ codes " (" ++ (c ∷ t) ++ codes ")"

unfoldable pub committees_part : List Text → Text
committees_part [] = []
committees_part (c ∷ cs) =
    let labels = c ∷ cs in
    let shown = take max_committees_shown labels in
    let more = codes "+" ++ print_ℕ (length labels - max_committees_shown) ++ codes " more" in
    codes " ["
    ++ join (codes ", ")
        (if ltb max_committees_shown (length labels) then shown ++ more ∷ [] else shown)
    ++ codes "]"

unfoldable pub describe_filer : Text → Option Member → Text
unfolding committee_label committees_part
describe_filer filer_name none = filer_name
describe_filer filer_name (some m) =
    let parts =
      keep (λ t. if is_empty t then false else true)
        (value_or [] m.party ∷ value_or [] m.state ∷ []) in
    let who =
      if is_empty parts
      then m.full_name
      else m.full_name ++ codes " (" ++ join (codes "-") parts ++ codes ")" in
    who ++ committees_part (map committee_label m.committees)

-- The link of a House report: the year of its date, or this one.
unfoldable pub house_url : ℕ → Filing → Text
house_url this_year f =
    let doc_id =
      if starts_with f.filing_id (codes "house:") then drop 6 f.filing_id else f.filing_id in
    pdf_url_for doc_id f.filing_type
      (value_or this_year (map_option (λ (d : Date). d.year) f.filed_date))

unfoldable pub senate_url : Filing → Text
senate_url f =
    ptr_url_for
      (if starts_with f.filing_id (codes "senate:") then drop 7 f.filing_id else f.filing_id)

-- The filings that are announced: those of the batch that were detected live.
unfoldable pub is_announced : List Text → Filing → Bool
is_announced ids f = one_of ids f.filing_id && f.first_seen_precision_s == default_precision_s

unfoldable pub announced : List Text → List Filing → List Filing
unfolding is_announced
announced ids filings =
    sorted (λ f g. leb f.first_seen_at g.first_seen_at) (keep (is_announced ids) filings)

unfoldable pub rows_of : Text → List Transaction → List Transaction
rows_of id transactions =
    sorted (λ t u. leb t.row_index u.row_index) (keep (λ t. text_eq t.filing_id id) transactions)

module _ (print_amount : Float → Text) (member_of : Text → Option Member) where
  -- `_format_amount`; `print_amount` is the format `,.0f`.
  unfoldable pub format_amount : Option Float → Option Float → Text
  format_amount (some low) (some high) =
      codes "$" ++ print_amount low ++ codes "-$" ++ print_amount high
  format_amount none high = []
  format_amount (some low) none = []

  unfoldable pub describe_transaction : Transaction → Text
  unfolding format_amount
  describe_transaction t =
      let label = value_or t.tx_type (dict_get t.tx_type tx_labels) in
      let ticker = value_or [] t.ticker in
      let asset = if is_empty ticker then t.asset_description_raw else ticker in
      let amount = format_amount t.amount_min t.amount_max in
      let owner = value_or [] t.owner in
      label
      ++ codes " "
      ++ asset
      ++ (if is_empty amount then [] else codes " " ++ amount)
      ++ (if is_empty owner then [] else codes " [" ++ owner ++ codes "]")

  unfoldable pub lines_of : (Filing → Text) → List Transaction → List Filing → List Text
  unfolding describe_transaction
  lines_of url_for transactions [] = []
  lines_of url_for transactions (f ∷ fs) =
      let who = describe_filer f.filer_name (f.bioguide_id >>= non_empty >>= member_of) in
      map (λ t. who ++ codes ": " ++ describe_transaction t ++ codes " — " ++ url_for f)
        (rows_of f.filing_id transactions)
      ++ lines_of url_for transactions fs

  unfoldable pub message_of : Text → List Text → Option Text
  message_of chamber [] = none
  message_of chamber (l ∷ ls) =
      let lines = l ∷ ls in
      let shown = take notify_max_lines lines in
      let more =
        codes "...and "
        ++ print_ℕ (length lines - notify_max_lines)
        ++ codes " more transaction(s)" in
      some (
        chamber
        ++ codes ": "
        ++ print_ℕ (length lines)
        ++ codes " transaction(s) parsed\n"
        ++ join (10 ∷ [])
            (if ltb notify_max_lines (length lines) then shown ++ more ∷ [] else shown))

  -- The message for the batch, if there is one.
  unfoldable pub notify_parsed_transactions : Text → (Filing → Text) → List Text → Db → Option Text
  unfolding message_of lines_of
  notify_parsed_transactions chamber url_for ids db =
      message_of chamber (lines_of url_for db.transactions (announced ids db.filings))
