-- ===== src/Tests/Tickers.antt =====
-- Transactions and the instruments that their tickers and descriptions mean.
use evnt_trden_public.Base.{
  ℕ, ◌≡◌, ◌≤◌, refl, ◌||◌, some, List, [], ◌∷◌, map, any, length, Text, codes, text_eq, ◌==◌, suc,
}
use evnt_trden_public.Db.{Transaction, Db}
use evnt_trden_public.Parsers.TickerMatch.{
  SecCompany, Scored, normalize_company_name, match_by_description, score_of, review_threshold,
}
use evnt_trden_public.Parsers.TickerMatch.Best.{IsFirstBest, match_by_description-IsFirstBest}
use evnt_trden_public.Ingest.Tickers.{Instrument, Linking, link_pending_transactions, fetch_pending}
use evnt_trden_public.Ingest.Tickers.Instruments.{IsUnique, link_pending_transactions-IsUnique}
use evnt_trden_public.Ingest.Tickers.Settled.{settled, link_pending_transactions-settled}
use evnt_trden_public.Tests.Politicians.{ratio}
use evnt_trden_public.Tests.Amendments.{tx}
use evnt_trden_public.Base.{lower, join, split_words}
use evnt_trden_public.Base.Regex.{sub, sub_start, match_start, word_any_case}

abbrev apple_inc : SecCompany
apple_inc = record { cik = codes "0000320193"; ticker = codes "AAPL"; title = codes "Apple Inc." }

abbrev companies : List SecCompany
companies =
    record { cik = codes "0000789019"; ticker = codes "MSFT"; title = codes "MICROSOFT CORP" }
    ∷ apple_inc
    ∷ []

name_test : normalize_company_name (codes "AAPL - Apple, Inc. Class A [ST]") ≡ codes "apple"
unfolding normalize_company_name lower join split_words sub sub_start match_start
    mathlib.Core.Bool.xor word_any_case
name_test = refl

match_test : match_by_description ratio (codes "Apple") companies ≡ some apple_inc
unfolding match_by_description text_eq normalize_company_name lower join split_words sub sub_start
    match_start mathlib.Core.Bool.xor word_any_case
match_test = refl

match_by_description-IsFirstBest_example :
    (s : Scored) × (s.company ≡ apple_inc)
    × (review_threshold ≤ s.score)
    × IsFirstBest s (map (score_of ratio (normalize_company_name (codes "Apple"))) companies)
match_by_description-IsFirstBest_example =
    match_by_description-IsFirstBest ratio (codes "Apple") companies apple_inc match_test

-- Two purchases of one company.
abbrev db : Db
db = record {
  filings = [];
  transactions = tx 1 (codes "house:1") ∷ tx 2 (codes "house:2") ∷ [];
  dq_issues = [];
  scrape_runs = [];
}

abbrev next_id : List Instrument → ℕ
next_id is = suc (length is)

abbrev sentence : Transaction → Text
sentence t = t.asset_description_raw

abbrev run : Linking
run = link_pending_transactions ratio next_id sentence companies [] 1000 db [] []

link_pending_transactions-IsUnique_example : IsUnique run
link_pending_transactions-IsUnique_example =
    link_pending_transactions-IsUnique ratio next_id sentence companies [] 1000 db [] [] refl refl

link_pending_transactions-settled_example :
    settled 2 run.db ≡ (settled 2 db || any (λ t. t.transaction_id == 2) (fetch_pending 1000 db))
link_pending_transactions-settled_example =
    link_pending_transactions-settled ratio next_id sentence companies [] 1000 db [] [] 2
