-- ===== src/Ingest/Index.antt =====
-- What the index steps of both chambers share (ingest/house.py and ingest/senate.py have the same code
-- for it): which entries are new, their insertion beside other writers, and the row of a run.
pub mod Entries
pub mod Insert
pub mod Alone
pub mod Run
use evnt_trden_public.Base.{
  ℕ, ◌||◌, Option, none, some, List, [], ◌∷◌, ◌++◌, map, keep, if◌then◌else◌, Text, one_of,
}
use evnt_trden_public.Db.{Filing, Db, ScrapeRun, RunStatus, Chamber}
use evnt_trden_public.Db.Rows.{filing_ids}

-- One `INSERT … ON CONFLICT DO NOTHING RETURNING filing_id`: the table after it, and the ids of the
-- rows that it wrote.
unfoldable pub insert_rows : List Filing → List Filing → List Filing × List Text
insert_rows [] table = (table, [])
insert_rows (f ∷ rows) table =
    let (t, ids) = insert_rows rows (table ++ f ∷ []) in
    let skip = insert_rows rows table in
    if one_of (filing_ids table) f.filing_id then skip else (t, f.filing_id ∷ ids)

-- The entries of one chamber's index, by the id of their filing.
module _ {E : Type 0} (entry_id : E → Text) where
  -- The loop of `new_entries`, with the set of the ids that it has seen.
  unfoldable pub new_entries_onto : List Text → List Text → List E → List E
  new_entries_onto existing seen [] = []
  new_entries_onto existing seen (e ∷ entries) =
      let skip = new_entries_onto existing seen entries in
      let add = e ∷ new_entries_onto existing (entry_id e ∷ seen) entries in
      if one_of existing (entry_id e) || one_of seen (entry_id e) then skip else add

  unfoldable pub new_entries : List E → List Text → List E
  unfolding new_entries_onto
  new_entries entries existing = new_entries_onto existing [] entries

  -- The statement and the entries that it stored; without new entries there is none.
  unfoldable pub insert_statement : (E → Filing) → List Filing → List E → List Filing × List E
  unfolding insert_rows
  insert_statement row_of later [] = (later, [])
  insert_statement row_of later (e ∷ es) =
      let (stored, ids) = insert_rows (map row_of (e ∷ es)) later in
      (stored, keep (λ x. one_of ids (entry_id x)) (e ∷ es))

  -- `meanwhile` is what other writers do to the table between the SELECT and the INSERT.
  unfoldable pub insert_new_filings :
      (List Filing → List Filing) → (E → Filing) → List E → List Filing → List Filing × List E
  unfolding insert_statement new_entries
  insert_new_filings meanwhile row_of entries table =
      insert_statement row_of (meanwhile table) (new_entries entries (filing_ids table))

-- What a run leaves: the tables, the message that it tried to send, and the number of new filings or
-- the exception that it raised again.
pub data Outcome : Type 0 where
  inserted : ℕ → Outcome
  raised : Text → Outcome

pub record IndexRun : Type 0 where
  pub db : Db
  pub message : Option Text
  pub outcome : Outcome

-- What the index gave: its entries, or the message of the exception.
pub data Fetched (E : Type 0) : Type 0 where
  fetched : List E → Fetched E
  fetch_failed : Text → Fetched E

-- `_record_scrape_run`
unfoldable pub record_scrape_run : ScrapeRun → Db → Db
record_scrape_run r db = record db { scrape_runs = db.scrape_runs ++ r ∷ [] }

unfoldable pub run_row : Chamber → ℕ → ℕ → RunStatus → ℕ → Option Text → ScrapeRun
run_row chamber started finished status count error = record {
  chamber = chamber;
  started_at = started;
  finished_at = finished;
  status = status;
  new_filings_count = count;
  error_message = error;
}
