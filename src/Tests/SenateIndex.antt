-- ===== src/Tests/SenateIndex.antt =====
-- The Senate's search, its session and a backfill of its index.
use evnt_trden_public.Base.{
  ℕ, ◌≡◌, refl, ◌↔◌, true, false, Option, none, some, List, [], ◌∷◌, ◌++◌, Text, codes, length,
  take, drop, arith, if◌then◌else◌, ◌==◌,
}
use evnt_trden_public.Db.{Db}
use evnt_trden_public.Ingest.Index.{fetched, fetch_failed}
use evnt_trden_public.Sources.Senate.{
  SenateIndexEntry, Answer, body, Home, served, status_error, Accept, accepted, returned,
  parse_rows, parsed, fetch_ptr_index, Session, new_session,
}
use evnt_trden_public.Sources.Senate.Pages.{fetch_ptr_index-whole}
use evnt_trden_public.Sources.Senate.Opening.{Opens, new_session_iff}
use evnt_trden_public.Ingest.Senate.{insert_new_filings, insert_chunks, backfill_first_seen}
use evnt_trden_public.Ingest.Senate.Chunks.{insert_chunks-chunked}
use evnt_trden_public.Base.{text_eq, is_space, strip, split_once}
use evnt_trden_public.Sources.Senate.{parse_row, parse_date}
use evnt_trden_public.Base.Regex.{find_match, word, group_of}
use evnt_trden_public.Parsers.SenatePtr.{read_us_date}
use evnt_trden_public.Base.Calendar.{is_date}
use evnt_trden_public.Ingest.Index
use evnt_trden_public.Base.Chunks.{chunked}
use evnt_trden_public.Base.{one_of}
use evnt_trden_public.Sources.Senate.{filing_id_for}

row : Text → Text → List Text
row kind tail =
    codes "Jane"
    ∷ codes " Doe"
    ∷ codes "office"
    ∷ (codes "<a href=\"/search/view/"
        ++ (kind
            ++ (codes
                  "/0123456789abcdef-0123456789abcdef-01/\" target=\"_blank\">Periodic Transaction Report for 12/08/2025"
                ++ (tail ++ codes "</a>"))))
    ∷ codes "12/09/2025"
    ∷ []

abbrev listing : List (List Text)
listing =
    row (codes "ptr") []
    ∷ row (codes "annual") []
    ∷ row (codes "paper") (codes " (Amendment 1)")
    ∷ []

search : ℕ → ℕ → Answer
search start len = body (some (codes "ok")) (take len (drop start listing))

print_body : Option Text → List (List Text) → Text
print_body result rows = []

-- Two entries of three rows: an amended report is one of them.
two_entries :
    fetch_ptr_index search print_body [] 4 2
    ≡ some (
        returned (
          record {
            report_uuid = codes "0123456789abcdef-0123456789abcdef-01";
            first_name = codes "Jane";
            last_name = codes "Doe";
            is_electronic = true;
            filed_date = some (record { year = 2025; month = 12; day = 9 });
          }
          ∷ record {
            report_uuid = codes "0123456789abcdef-0123456789abcdef-01";
            first_name = codes "Jane";
            last_name = codes "Doe";
            is_electronic = false;
            filed_date = some (record { year = 2025; month = 12; day = 9 });
          }
          ∷ []))
unfolding fetch_ptr_index search row text_eq parse_rows parse_row find_match word is_space
    parse_date strip read_us_date split_once is_date group_of
two_entries = refl

serves :
    (start len : ℕ) → search start len ≡ body (some (codes "ok")) (take len (drop start listing))
unfolding search
serves start len = refl

fetch_ptr_index-whole_example :
    fetch_ptr_index search print_body [] 4 2
    ≡ some (parsed search print_body [] (parse_rows listing))
fetch_ptr_index-whole_example =
    fetch_ptr_index-whole search print_body [] listing serves 2 (omega arith) 4 (omega arith)

-- The first request is refused for the moment.
home : ℕ → Home
home attempt = if attempt == 0 then status_error (codes "403") else served (some (codes "token"))

accept : Text → Accept
accept token = accepted true

abbrev session : Session
session = record { csrf_token = codes "token" }

retried : new_session home accept ≡ returned session
unfolding new_session home accept
retried = refl

new_session_iff_example : (new_session home accept ≡ returned session) ↔ Opens home accept session
new_session_iff_example = new_session_iff home accept session

abbrev entry : Text → SenateIndexEntry
entry uuid = record {
  report_uuid = uuid;
  first_name = codes "Jane";
  last_name = codes "Doe";
  is_electronic = true;
  filed_date = none;
}

abbrev pub index : List SenateIndexEntry
index = entry (codes "a") ∷ entry (codes "b") ∷ entry (codes "a") ∷ []

abbrev pub empty_db : Db
empty_db = record { filings = []; transactions = []; dq_issues = []; scrape_runs = [] }

insert_chunks-chunked_example :
    let (stored, new) = insert_new_filings (λ t. t) (backfill_first_seen 5) index [] in
    insert_chunks (λ t. t) 1 5 9 (chunked 2 index) [] ≡ (stored, length new)
insert_chunks-chunked_example = insert_chunks-chunked 1 5 9 2 index [] (omega arith)

counted : (insert_chunks (λ t. t) 1 5 9 (chunked 2 index) []).1 ≡ 2
unfolding insert_chunks chunked Index.insert_new_filings one_of text_eq filing_id_for
counted = refl
