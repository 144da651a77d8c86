-- ===== src/Ingest/PoliticianLinks.antt =====
-- src/congress_collector/ingest/politician_links.py: filings are linked to politicians. The score of two
-- names and the sentence of an issue (which prints texts and scores in Python's formats) are arguments.
pub mod Settled
use evnt_trden_public.Base.{
  ℕ, ◌+◌, ◌/◌, Bool, true, false, ◌&&◌, ◌||◌, not, Option, none, some, is_some, value_or, or_else,
  List, [], ◌∷◌, ◌++◌, map, keep, any, take, count_if, leb, if◌then◌else◌, Text, codes, text_eq,
  starts_with, one_of,
}
use evnt_trden_public.Base.Calendar.{Date, date_lt, from_ordinal}
use evnt_trden_public.Base.Sort.{sorted}
use evnt_trden_public.Db.{Filing, Db, DqIssue, Chamber, house, senate, update_filing}
use evnt_trden_public.Parsers.PoliticianMatch.{
  Candidate, MatchResult, Method, fuzzy, unmatched, ambiguous, normalize_name, best_match,
}

pub record Politician : Type 0 where
  pub bioguide_id : Text
  pub full_name : Text

pub record PoliticianTerm : Type 0 where
  pub bioguide_id : Text
  pub chamber : Chamber
  pub start_date : Date
  pub end_date : Option Date

pub record PoliticianOverride : Type 0 where
  pub chamber : Chamber
  pub filer_name : Text
  pub bioguide_id : Text

pub record People : Type 0 where
  pub politicians : List Politician
  pub terms : List PoliticianTerm
  pub overrides : List PoliticianOverride

chamber_eq : Chamber → Chamber → Bool
chamber_eq house house = true
chamber_eq senate senate = true
chamber_eq _ _ = false

-- The dict of overrides by chamber and normalized name: a later row takes the place of an earlier one.
unfoldable pub find_override : Chamber → Text → List PoliticianOverride → Option Text
unfolding chamber_eq
find_override chamber name [] = none
find_override chamber name (o ∷ os) =
    let later = find_override chamber name os in
    if chamber_eq o.chamber chamber && text_eq (normalize_name o.filer_name) name
    then or_else later (some o.bioguide_id)
    else later

-- `start_date <= as_of` and `end_date` unset or `>= as_of`
unfoldable pub serves_at : Chamber → Date → PoliticianTerm → Bool
unfolding chamber_eq
serves_at chamber as_of t =
    chamber_eq t.chamber chamber
    && (not (date_lt as_of t.start_date)
        && elim t.end_date [ none ↦ true | some d ↦ not (date_lt d as_of) ])

find_name : Text → List Politician → Option Text
find_name id [] = none
find_name id (p ∷ ps) = if text_eq p.bioguide_id id then some p.full_name else find_name id ps

-- One candidate for each politician with a term at that day, in the order of the terms.
candidates_onto :
    List Text → Chamber → Date → List Politician → List PoliticianTerm → List Candidate
unfolding find_name
candidates_onto seen chamber as_of ps [] = []
candidates_onto seen chamber as_of ps (t ∷ ts) =
    let skip = candidates_onto seen chamber as_of ps ts in
    let rest = candidates_onto (t.bioguide_id ∷ seen) chamber as_of ps ts in
    if serves_at chamber as_of t && not (one_of seen t.bioguide_id)
    then elim (find_name t.bioguide_id ps) [
      | none ↦ skip
      | some name ↦ record { bioguide_id = t.bioguide_id; full_name = name } ∷ rest
    ]
    else skip

unfoldable pub candidates_for : Chamber → Date → People → List Candidate
unfolding candidates_onto
candidates_for chamber as_of people =
    candidates_onto [] chamber as_of people.politicians people.terms

-- `filed_date or first_seen_at.date()`
as_of_date : Filing → Date
as_of_date f = value_or (from_ordinal (f.first_seen_at / 86400)) f.filed_date

unfoldable pub is_match_issue : Text → DqIssue → Bool
is_match_issue filing_id issue =
    text_eq (value_or [] issue.filing_id) filing_id
    && (is_some issue.filing_id
        && (starts_with issue.issue_type (codes "politician_match_")
            && not (is_some issue.resolved_at)))

unfoldable pub is_flagged : List DqIssue → Text → Bool
is_flagged issues filing_id = any (is_match_issue filing_id) issues

unfoldable pub unlinked : Filing → Bool
unlinked f = not (is_some f.bioguide_id)

unfoldable pub count_pending : Db → ℕ
count_pending db = count_if unlinked db.filings

-- Filings that are not flagged come first.
unfoldable pub untried_le : List DqIssue → Filing → Filing → Bool
untried_le issues f g = not (is_flagged issues f.filing_id) || is_flagged issues g.filing_id

unfoldable pub fetch_pending : ℕ → Db → List Filing
unfolding untried_le
fetch_pending limit db = take limit (sorted (untried_le db.dq_issues) (keep unlinked db.filings))

method_text : Method → Text
method_text fuzzy = codes "fuzzy"
method_text unmatched = codes "unmatched"
method_text ambiguous = codes "ambiguous"

pub record Linking : Type 0 where
  pub db : Db
  pub linked : ℕ

unfoldable pub set_politician : Text → Filing → Filing
set_politician id f = record f { bioguide_id = some id }

unfoldable pub assign : Text → Filing → Linking → Linking
unfolding set_politician
assign id f s = record {
  db = record s.db { filings = update_filing f.filing_id (set_politician id) s.db.filings };
  linked = s.linked + 1;
}

-- An issue, if the filing has none that is open.
unfoldable pub flag : Method → Text → Filing → Linking → Linking
unfolding method_text
flag method details f s = if is_flagged s.db.dq_issues f.filing_id then s else record s {
  db = record s.db {
    dq_issues =
        s.db.dq_issues
        ++ record {
          filing_id = some f.filing_id;
          transaction_id = none;
          issue_type = codes "politician_match_" ++ method_text method;
          details = details;
          resolved_at = none;
        }
          ∷ [];
  };
}

module _ (token_sort_ratio : Text → Text → ℕ) (details : Filing → Date → ℕ → Text)
    (people : People) where
  unfoldable pub use_result : Filing → Linking → MatchResult → Linking
  unfolding as_of_date assign flag
  use_result f s result = elim result.bioguide_id [
    | some id ↦ assign id f s
    | none ↦ flag result.method (details f (as_of_date f) result.score) f s
  ]

  -- An override goes before the match of the name.
  unfoldable pub use_override : Filing → Linking → Option Text → MatchResult → Linking
  unfolding use_result
  use_override f s (some id) result = assign id f s
  use_override f s none result = use_result f s result

  unfoldable pub link_filing : Linking → Filing → Linking
  unfolding use_override as_of_date
  link_filing s f =
      use_override f s (find_override f.chamber (normalize_name f.filer_name) people.overrides)
        (best_match token_sort_ratio f.filer_name (candidates_for f.chamber (as_of_date f) people))

  unfoldable pub link_batch : List Filing → Linking → Linking
  unfolding link_filing
  link_batch [] s = s
  link_batch (f ∷ fs) s = link_batch fs (link_filing s f)

  unfoldable pub link_pending_filings : ℕ → Db → Linking
  unfolding link_batch fetch_pending
  link_pending_filings batch_size db =
      link_batch (fetch_pending batch_size db) (record { db = db; linked = 0 })
