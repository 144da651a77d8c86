-- ===== src/Ingest/CommunityArchive/Report.antt =====
-- `survivorship_report`: per source, how many filings of the archive are and are not among our own.
pub mod Counts
pub mod Matched
use evnt_trden_public.Base.{
  ℕ, ◌+◌, Bool, true, false, ◌&&◌, ◌||◌, Option, none, some, is_some, value_or, List, [], ◌∷◌, ◌++◌,
  if◌then◌else◌, Text, text_eq, dict_get,
}
use evnt_trden_public.Base.Float.{Float}
use evnt_trden_public.Ingest.CommunityArchive.{CommunityTransaction}

-- A row of the query, whose `external_filing_id` is not NULL.
pub record Observed : Type 0 where
  pub source : Text
  pub external_filing_id : Text
  pub matched_filing_id : Option Text

abbrev pub same_option : Option Text → Option Text → Bool
same_option none none = true
same_option (some s) (some t) = text_eq s t
same_option _ _ = false

abbrev pub same_row : Observed → Observed → Bool
same_row a b =
    text_eq a.source b.source
    && (text_eq a.external_filing_id b.external_filing_id
        && same_option a.matched_filing_id b.matched_filing_id)

unfoldable pub has_row : Observed → List Observed → Bool
has_row a [] = false
has_row a (b ∷ rows) = same_row a b || has_row a rows

-- `.distinct()`: of equal rows one is left.
unfoldable pub distinct : List Observed → List Observed
distinct [] = []
distinct (a ∷ rows) = let rest = distinct rows in if has_row a rest then rest else a ∷ rest

unfoldable pub observed_of : CommunityTransaction → Option Text → List Observed
observed_of ct none = []
observed_of ct (some id) =
    record { source = ct.source; external_filing_id = id; matched_filing_id = ct.matched_filing_id }
    ∷ []

unfoldable pub observed : List CommunityTransaction → List Observed
observed [] = []
observed (ct ∷ table) = observed_of ct ct.external_filing_id ++ observed table

pub record Bucket : Type 0 where
  pub matched : ℕ
  pub unmatched : ℕ

abbrev pub empty_bucket : Bucket
empty_bucket = record { matched = 0; unmatched = 0 }

abbrev pub Report : Type 0
Report = List (Text × Bucket)

unfoldable pub count_in : Option Text → Bucket → Bucket
count_in none b = record b { unmatched = b.unmatched + 1 }
count_in (some id) b = record b { matched = b.matched + 1 }

-- `report.setdefault(source, …)`, and one more in its bucket.
unfoldable pub add_row : Observed → Report → Report
unfolding count_in
add_row a [] = (a.source, count_in a.matched_filing_id empty_bucket) ∷ []
add_row a ((s, b) ∷ report) =
    let rest = add_row a report in
    if text_eq a.source s then (s, count_in a.matched_filing_id b) ∷ report else (s, b) ∷ rest

unfoldable pub add_rows : List Observed → Report → Report
unfolding add_row
add_rows [] report = report
add_rows (a ∷ rows) report = add_rows rows (add_row a report)

unfoldable pub survivorship_report : List CommunityTransaction → Report
unfolding distinct observed add_rows
survivorship_report table = add_rows (distinct (observed table)) []
