-- ===== src/Ingest/Index/Run.antt =====
-- What a run of an index step records of itself.
use evnt_trden_public.Base.{◌≡◌, Bool, ◌&&◌, none, some, is_some, [], ◌∷◌, ◌++◌, ltb}
use evnt_trden_public.Db.{Db, ScrapeRun, run_success, run_failed}
use evnt_trden_public.Ingest.Index.{IndexRun, Outcome, inserted, raised}

-- What the row of a run says, by how the run ended. `announces` is whether new filings are sent.
abbrev Agrees : Bool → Db → IndexRun → ScrapeRun → Outcome → Type 0
Agrees announces before r row (inserted n) =
    (row.status ≡ run_success)
    × (row.new_filings_count ≡ n)
    × (row.error_message ≡ none)
    × (is_some r.message ≡ (announces && ltb 0 n))
Agrees announces before r row (raised error) =
    (row.status ≡ run_failed)
    × (row.new_filings_count ≡ 0)
    × (row.error_message ≡ some error)
    × (r.message ≡ none)
    × (r.db.filings ≡ before.filings)

-- One row of `scrape_runs` is added, and it says how the run ended.
pub record IsRecorded (announces : Bool) (before : Db) (r : IndexRun) : Type 0 where
  pub row : ScrapeRun
  pub added : r.db.scrape_runs ≡ before.scrape_runs ++ row ∷ []
  pub agrees : Agrees announces before r row r.outcome
