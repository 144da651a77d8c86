-- ===== src/Tests/Messages.antt =====
-- The message for a batch with a live filing and one of a backfill.
use evnt_trden_public.Base.{one_of, text_eq, ◌≡◌, refl, none, some, List, [], ◌∷◌, Text, codes}
use evnt_trden_public.Base.Float.{Float}
use evnt_trden_public.Db.{Filing, Db}
use evnt_trden_public.Ingest.Messages.{
  Member, describe_filer, house_url, notify_parsed_transactions,
}
use evnt_trden_public.Ingest.Messages.Sent.{
  live_count, IsMessage, notify_parsed_transactions-IsMessage,
}
use evnt_trden_public.Tests.Backfill.{old_row}
use evnt_trden_public.Tests.Pdfs.{filing}
use evnt_trden_public.Base.{join}

abbrev member : Member
member = record {
  full_name = codes "Jane Doe";
  party = some (codes "D");
  state = none;
  committees = (codes "Finance", some (codes "Chairman")) ∷ (codes "Rules", none) ∷ [];
}

described :
    describe_filer (codes "DOE, JANE") (some member)
    ≡ codes "Jane Doe (D) [Finance (Chairman), Rules]"
unfolding describe_filer join
described = refl

abbrev live : Filing
live = record (filing (codes "house:2") (codes "P")) { first_seen_precision_s = 300 }

abbrev backfilled : Filing
backfilled = record (filing (codes "house:3") (codes "P")) { first_seen_precision_s = 86400 }

abbrev db : Db
db = record {
  filings = backfilled ∷ live ∷ [];
  transactions = old_row ∷ record old_row { filing_id = codes "house:3" } ∷ [];
  dq_issues = [];
  scrape_runs = [];
}

abbrev batch : List Text
batch = codes "house:2" ∷ codes "house:3" ∷ []

abbrev print_amount : Float → Text
print_amount x = codes "1,001"

-- Only the transaction of the live filing counts.
counted : live_count batch db ≡ 1
unfolding one_of text_eq
counted = refl

notify_parsed_transactions-IsMessage_example :
    IsMessage (codes "House") (live_count batch db) (
      notify_parsed_transactions print_amount
        (λ id. none)
        (codes "House")
        (house_url 2024)
        batch
        db)
notify_parsed_transactions-IsMessage_example =
    notify_parsed_transactions-IsMessage print_amount (λ id. none) (codes "House") (house_url 2024)
      batch db
