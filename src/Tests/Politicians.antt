-- ===== src/Tests/Politicians.antt =====
-- Filings and the politicians that their names mean.
use evnt_trden_public.Base.{
  ℕ, ◌*◌, ◌≡◌, refl, ◌||◌, none, [], ◌∷◌, any, Text, codes, text_eq, if◌then◌else◌,
}
use evnt_trden_public.Base.Calendar.{Date}
use evnt_trden_public.Db.{Filing, house}
use evnt_trden_public.Parsers.PoliticianMatch.{Candidate, point, normalize_name}
use evnt_trden_public.Ingest.PoliticianLinks.{People, fetch_pending, link_pending_filings}
use evnt_trden_public.Ingest.PoliticianLinks.Settled.{settled, link_pending_filings-settled}
use evnt_trden_public.Tests.Pdfs.{db}
use evnt_trden_public.Base.{join, split_words, lower, one_of}

-- A score that knows equal names only.
abbrev pub ratio : Text → Text → ℕ
ratio a b = if text_eq a b then 100 * point else 40 * point

abbrev jane : Candidate
jane = record { bioguide_id = codes "D000001"; full_name = codes "Jane Doe" }

abbrev john : Candidate
john = record { bioguide_id = codes "R000002"; full_name = codes "John Roe, Jr." }

normalize_test : normalize_name (codes "Hon. John  Roe, Jr.") ≡ codes "john roe"
unfolding normalize_name join split_words lower one_of text_eq
normalize_test = refl

abbrev people : People
people = record {
  politicians = record { bioguide_id = codes "D000001"; full_name = codes "Jane Doe" } ∷ [];
  terms =
      record {
        bioguide_id = codes "D000001";
        chamber = house;
        start_date = record { year = 2015; month = 1; day = 3 };
        end_date = none;
      }
      ∷ [];
  overrides = [];
}

abbrev sentence : Filing → Date → ℕ → Text
sentence f as_of score = f.filer_name

link_pending_filings-settled_example :
    settled (codes "house:2") (link_pending_filings ratio sentence people 1000 db).db ≡ (
      settled (codes "house:2") db
      || any (λ f. text_eq f.filing_id (codes "house:2")) (fetch_pending 1000 db))
link_pending_filings-settled_example =
    link_pending_filings-settled ratio sentence people 1000 db (codes "house:2")
