-- ===== src/Ingest/Tickers.antt =====
-- src/congress_collector/ingest/tickers.py: transactions are linked to instruments. The score of two names,
-- the keys of new instruments and the sentence of an issue are arguments.
pub mod Instruments
pub mod Settled
use evnt_trden_public.Base.{
  ℕ, suc, ◌+◌, ◌-◌, Bool, true, false, ◌&&◌, ◌||◌, not, Option, none, some, is_some, value_or,
  or_else, List, [], ◌∷◌, ◌++◌, map, keep, any, take, length, count_if, ◌==◌, if◌then◌else◌, Text,
  codes, text_eq, strip, non_empty,
}
use evnt_trden_public.Base.Sort.{sorted}
use evnt_trden_public.Db.{Transaction, Db, DqIssue}
use evnt_trden_public.Parsers.TickerMatch.{
  SecCompany, normalize_ticker, get_ticker, match_by_ticker, match_by_description,
}

pub record Instrument : Type 0 where
  pub instrument_id : ℕ
  pub primary_ticker : Text
  pub cik : Option Text
  pub name : Text

-- The columns of `ticker_map` that are not constants of the step.
pub record TickerMap : Type 0 where
  pub instrument_id : ℕ
  pub ticker : Text

pub record Override : Type 0 where
  pub ticker : Option Text
  pub cik : Option Text
  pub reason : Text

-- A line of the overrides' file, with its key.
pub record OverrideRow : Type 0 where
  pub match_type : Text
  pub match_value : Text
  pub override : Override

-- The dict of `load_overrides`: a later line takes the place of an earlier one.
unfoldable pub find_override : Text → Text → List OverrideRow → Option Override
find_override type value [] = none
find_override type value (o ∷ os) =
    let later = find_override type value os in
    if text_eq o.match_type type && text_eq o.match_value value
    then or_else later (some o.override)
    else later

zeros : ℕ → Text
zeros ℕ.zero = []
zeros (suc n) = b'0' ∷ zeros n

-- `t.zfill(10)` of a text without a sign
zfill_ten : Text → Text
unfolding zeros
zfill_ten t = zeros (10 - length t) ++ t

unfoldable pub company_from_override : Override → List SecCompany → Option SecCompany
unfolding zfill_ten
company_from_override o companies = elim o.ticker [
  | none ↦ none
  | some ticker ↦ or_else (get_ticker (normalize_ticker ticker) companies) (
      some (record {
        cik = zfill_ten (value_or [] o.cik);
        ticker = normalize_ticker ticker;
        title = o.reason;
      }))
]

unfoldable pub is_unmatched_issue : ℕ → DqIssue → Bool
is_unmatched_issue id issue = elim issue.transaction_id [
  | none ↦ false
  | some other ↦
      other == id
      && (text_eq issue.issue_type (codes "ticker_match_unmatched")
          && not (is_some issue.resolved_at))
]

unfoldable pub is_flagged : List DqIssue → ℕ → Bool
is_flagged issues id = any (is_unmatched_issue id) issues

unfoldable pub unlinked : Transaction → Bool
unlinked t = not (is_some t.instrument_id)

unfoldable pub count_pending : Db → ℕ
count_pending db = count_if unlinked db.transactions

-- Transactions that are not flagged come first.
unfoldable pub untried_le : List DqIssue → Transaction → Transaction → Bool
untried_le issues t u =
    not (is_flagged issues t.transaction_id) || is_flagged issues u.transaction_id

unfoldable pub fetch_pending : ℕ → Db → List Transaction
unfolding untried_le
fetch_pending limit db =
    take limit (sorted (untried_le db.dq_issues) (keep unlinked db.transactions))

names : Text → Option Text → Bool
names cik none = false
names cik (some other) = text_eq other cik

-- `instrument_by_cik.get(cik)`
unfoldable pub find_instrument : Text → List Instrument → Option ℕ
unfolding names
find_instrument cik [] = none
find_instrument cik (i ∷ is) =
    let later = find_instrument cik is in
    if names cik i.cik then or_else later (some i.instrument_id) else later

unfoldable pub has_mapping : ℕ → Text → List TickerMap → Bool
has_mapping id ticker ms = any (λ m. m.instrument_id == id && text_eq m.ticker ticker) ms

pub record Linking : Type 0 where
  pub db : Db
  pub instruments : List Instrument
  pub ticker_map : List TickerMap
  pub linked : ℕ

unfoldable pub update_transaction :
    ℕ → (Transaction → Transaction) → List Transaction → List Transaction
update_transaction id change [] = []
update_transaction id change (t ∷ ts) =
    (if t.transaction_id == id then change t else t) ∷ update_transaction id change ts

-- The ticker is filled in where the parser found none.
unfoldable pub set_instrument : ℕ → Text → Transaction → Transaction
set_instrument id ticker t = record t {
  instrument_id = some id;
  ticker = or_else t.ticker (some ticker);
}

unfoldable pub flag : Text → Transaction → Linking → Linking
flag details t s = if is_flagged s.db.dq_issues t.transaction_id then s else record s {
  db = record s.db {
    dq_issues =
        s.db.dq_issues
        ++ record {
          filing_id = some t.filing_id;
          transaction_id = some t.transaction_id;
          issue_type = codes "ticker_match_unmatched";
          details = details;
          resolved_at = none;
        }
          ∷ [];
  };
}

unfoldable pub take_or_make : (List Instrument → ℕ) → SecCompany → Linking → Option ℕ → Linking × ℕ
take_or_make new_id c s (some id) = (s, id)
take_or_make new_id c s none = (
  record s {
    instruments =
        s.instruments
        ++ record {
          instrument_id = new_id s.instruments;
          primary_ticker = c.ticker;
          cik = some c.cik;
          name = c.title;
        }
          ∷ [];
  },
  new_id s.instruments,
)

-- An instrument of the company's CIK, made if there is none.
unfoldable pub ensure_instrument : (List Instrument → ℕ) → SecCompany → Linking → Linking × ℕ
unfolding take_or_make
ensure_instrument new_id c s = take_or_make new_id c s (find_instrument c.cik s.instruments)

unfoldable pub ensure_mapping : ℕ → Text → Linking → Linking
ensure_mapping id ticker s = if has_mapping id ticker s.ticker_map then s else record s {
  ticker_map = s.ticker_map ++ record { instrument_id = id; ticker = ticker } ∷ [];
}

unfoldable pub assign : ℕ → Text → Transaction → Linking → Linking
unfolding set_instrument
assign id ticker t s = record s {
  db = record s.db {
    transactions = update_transaction t.transaction_id (set_instrument id ticker) s.db.transactions;
  };
  linked = s.linked + 1;
}

module _ (token_sort_ratio : Text → Text → ℕ) (new_id : List Instrument → ℕ)
    (details : Transaction → Text) (companies : List SecCompany)
    (overrides : List OverrideRow) where
  -- By the description: an override, or else the best name.
  resolve_description : Transaction → Option Override → Option SecCompany
  resolve_description t (some o) = company_from_override o companies
  resolve_description t none =
      match_by_description token_sort_ratio t.asset_description_raw companies

  by_description : Transaction → Option SecCompany
  unfolding resolve_description
  by_description t =
      resolve_description t
        (find_override (codes "description") (strip t.asset_description_raw) overrides)

  -- By the ticker: an override is final, also one that names no company.
  resolve_ticker : Transaction → Text → Option Override → Option SecCompany
  unfolding by_description
  resolve_ticker t ticker (some o) = company_from_override o companies
  resolve_ticker t ticker none = or_else (match_by_ticker ticker companies) (by_description t)

  -- `_resolve`
  unfoldable pub resolve : Transaction → Option SecCompany
  unfolding resolve_ticker by_description
  resolve t = elim (non_empty (value_or [] t.ticker)) [
    | none ↦ by_description t
    | some ticker ↦
        resolve_ticker t ticker (find_override (codes "ticker") (normalize_ticker ticker) overrides)
  ]

  unfoldable pub use_company : Transaction → Linking → Option SecCompany → Linking
  unfolding flag ensure_mapping assign
  use_company t s none = flag (details t) t s
  use_company t s (some c) =
      let (next, id) = ensure_instrument new_id c s in
      assign id c.ticker t (ensure_mapping id c.ticker next)

  unfoldable pub link_batch : List Transaction → Linking → Linking
  unfolding use_company
  link_batch [] s = s
  link_batch (t ∷ ts) s = link_batch ts (use_company t s (resolve t))

  unfoldable pub link_pending_transactions : ℕ → Db → List Instrument → List TickerMap → Linking
  unfolding link_batch fetch_pending
  link_pending_transactions batch_size db instruments ticker_map =
      link_batch (fetch_pending batch_size db)
        (record { db = db; instruments = instruments; ticker_map = ticker_map; linked = 0 })
