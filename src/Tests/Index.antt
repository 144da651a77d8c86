-- ===== src/Tests/Index.antt =====
-- House index entries, and the filings that they become.
use evnt_trden_public.Base.{
  ◌≡◌, refl, Option, none, some, List, [], ◌∷◌, ◌++◌, Text, codes, one_of, text_eq, join,
  map_option, or_else, if◌then◌else◌,
}
use evnt_trden_public.Base.Calendar.{Date}
use evnt_trden_public.Base.Decimal.{print_ℕ}
use evnt_trden_public.Db.{Filing, Db, get_filing}
use evnt_trden_public.Db.Rows.{filing_ids}
use evnt_trden_public.Sources.House.{HouseIndexEntry, filing_id_for, pdf_url_for, filer_name_for}
use evnt_trden_public.Ingest.House.{entry_id, new_entries, filing_of, FirstSeenFor}
use evnt_trden_public.Ingest.Index
use evnt_trden_public.Ingest.Index.{fetched, fetch_failed}
use evnt_trden_public.Ingest.Index.Entries.{find_entry}
use evnt_trden_public.Ingest.Index.Insert.{get_filing-insert_new_filings, insert_new_filings_twice}

abbrev entry : Text → Option Date → HouseIndexEntry
entry doc filed = record {
  doc_id = doc;
  last = codes "Doe";
  first = codes "Jane";
  prefix = codes "Hon.";
  suffix = [];
  filing_type = codes "P";
  state_dst = codes "CA11";
  year = 2024;
  filing_date = filed;
}

abbrev pub first_entry : HouseIndexEntry
first_entry = entry (codes "20024001") (some (record { year = 2024; month = 3; day = 1 }))

abbrev second_entry : HouseIndexEntry
second_entry = entry (codes "20024002") none

abbrev pub index : List HouseIndexEntry
index = first_entry ∷ second_entry ∷ first_entry ∷ []

abbrev live : FirstSeenFor
live e = (1700000000, 300)

abbrev id_2 : Text
id_2 = codes "house:20024002"

abbrev stored : List Filing
stored = filing_of live first_entry ∷ []

-- Another writer that stores the second filing in between.
abbrev racer : List Filing → List Filing
racer t = t ++ filing_of live second_entry ∷ []

abbrev empty_db : Db
empty_db = record { filings = []; transactions = []; dq_issues = []; scrape_runs = [] }

name_test : filer_name_for first_entry ≡ codes "Hon. Jane Doe"
unfolding filer_name_for join
name_test = refl

url_test :
    pdf_url_for (codes "20024001") (codes "P") 2024
    ≡ codes "https://disclosures-clerk.house.gov/public_disc/ptr-pdfs/2024/20024001.pdf"
unfolding pdf_url_for text_eq print_ℕ
url_test = refl

new_entries_test : new_entries index (filing_ids stored) ≡ second_entry ∷ []
unfolding new_entries one_of text_eq filing_id_for filing_of Index.new_entries
new_entries_test = refl

row_id : (e : HouseIndexEntry) → (filing_of live e).filing_id ≡ entry_id e
unfolding filing_of
row_id e = refl

get_filing-insert_new_filings_example :
    get_filing id_2 (Index.insert_new_filings entry_id racer (filing_of live) index stored).0
    ≡ or_else (get_filing id_2 (racer stored)) (
        if one_of (filing_ids stored) id_2
        then none
        else map_option (filing_of live) (find_entry entry_id id_2 index))
get_filing-insert_new_filings_example =
    get_filing-insert_new_filings entry_id (filing_of live) row_id racer index stored id_2

insert_new_filings_twice_example :
    let after = (Index.insert_new_filings entry_id (λ t. t) (filing_of live) index stored).0 in
    Index.insert_new_filings entry_id (λ t. t) (filing_of live) index after ≡ (after, [])
insert_new_filings_twice_example =
    insert_new_filings_twice entry_id (filing_of live) row_id (λ t. t) (filing_of live) index stored
      (λ id h. h)
