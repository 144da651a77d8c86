-- ===== src/Lib.antt =====
-- A model of the collector of congressional financial disclosures (src/congress_collector). It runs
-- in steps, each a batch over the tables of a Postgres database: the index of filings is read and
-- new ones are stored (ingest/house.py), their PDFs are fetched and archived in a bucket under a
-- budget (ingest/house_pdfs.py, storage/), the archived reports are parsed into transactions
-- (ingest/house_ptrs.py, parsers/house_ptr.py, and for the Senate ingest/senate_ptrs.py,
-- parsers/senate_ptr.py) or imported from a transcription (ingest/transcribed_ptrs.py), filings are
-- linked to politicians (ingest/politician_links.py), transactions to instruments
-- (ingest/tickers.py), and amended transactions to their successors (ingest/amendments.py). The
-- steps share no memory: they meet in the tables, and each takes the rows that the step before it
-- left.
--
-- Files, by the code that they model (below src/congress_collector/):
--   Base and its children: Python's texts, numbers, sorting, regular expressions, floats and dates.
--   Db, Db/Rows: db/models.py, the tables as lists of rows and their lookup by key.
--   Sources/House: the entries and URLs of sources/house.py.
--   Sources/Senate: sources/senate.py; Pages is about the requests for the index, Opening about the
--     session.
--   Sources/CommunityArchive: sources/community_archive.py, from the rows of the JSON files on.
--   Parsers/Amounts: parsers/amounts.py; Amounts/Bands is about the bands that both sites print.
--   Parsers/HousePtr: parsers/house_ptr.py. Lines is _group_lines, Columns _find_column_bounds, Patterns
--     the regular expressions, Row _OpenRecord, Parse the loop of parse_ptr_transactions; Lines/Groups,
--     Row/Fields and Parse/Starts, Rows, Invariant and Contract prove what they do.
--   Parsers/HouseFd, HouseFd/Row: parsers/house_fd.py; Holdings is about all holdings of a report, Section
--     about the lines that they come from.
--   Parsers/SenatePtr: parsers/senate_ptr.py; the cells of the page's table are an argument. Rows and
--     Description are about its rows and the descriptions of the assets.
--   Parsers/Scan, Parsers/Scan/Verify: parsers/scan_classification.py, parsers/scan_verification.py.
--   Parsers/PoliticianMatch, Parsers/TickerMatch: parsers/politician_match.py, parsers/ticker_match.py.
--   Storage/Bucket, Storage/Quota: storage/r2_storage.py, storage/quota.py. Quota/Budget has writers one
--     after the other, Quota/Budget/Race those at once, as a step relation.
--   Ingest/Index: what ingest/house.py and ingest/senate.py have in common, for entries of any kind; Entries,
--     Insert, Alone and Run are about it.
--   Ingest/House, Senate, HousePdfs, HousePtrs, HouseFds, SenatePtrs, Amendments, TranscribedPtrs,
--     PoliticianLinks, Tickers, CommunityArchive, CatchUp: the module of ingest/ of that name (CatchUp is
--     catchup_house_backlog.py), with what is proved in its children. Of CommunityArchive, Report and Main
--     hold survivorship_report and main.
--   Ingest/Messages: the messages about parsed transactions, of ingest/house_ptrs.py and
--     ingest/senate_ptrs.py; Sent is about when there is one.
--   Ingest/ReparseFailedHousePtrs: ingest/reparse_failed_house_ptrs.py; Settled and Untouched say what
--     becomes of a filing.
--   Ingest/BackfillHouseReparse, OfficialBackfill: ingest/backfill_house_reparse.py and
--     ingest/official_backfill.py; Fills, Twice and Counts are about their runs.
--   Ops/Rearchive: ops/rearchive_from_source_to_r2.py; Keys is about the year in a key, Complete about
--     a run.
--   Tests: runs on concrete inputs.
--
-- State is passed explicitly: Db holds the tables, Archive a bucket and its running totals, and a session
-- that commits is a function from tables to tables. An exception is a value: `none`, or a constructor
-- such as `raised`; a session that it ends leaves the tables as they were. What is outside the program is
-- an argument: the Clerk's site, the digest, the failures of an upload, the text extraction, the score
-- of two names, the keys of new rows, the clock, and what other writers do between two statements.
--
-- Coordinates are integers, in thousandths of a point. Moments are seconds. Letter case is that of ASCII
-- letters and \d is an ASCII digit. A float is the decimal number that it is written as, without the
-- rounding to 53 bits. A query without ORDER BY, or with ties, keeps the order of the table.
--
-- Fuel: printing a number divides it by ten and has one round more than its value; the year of a day
-- number has a round for each 365 days; a list in slices has at most as many of them as elements, which
-- is proved to give the whole list; draining a stage has a round for each item that waits and one more,
-- which is proved to be enough. Regular expressions are run by recursion on the expression and the text.
-- All else is structural recursion.
--
-- Not modelled: legislators and committees, SIC codes, and the operations scripts but for the check of
-- the quota and the re-archiving, none of which the modelled steps call; HTTP, SQL and Telegram
-- themselves, a database that fails, columns that no modelled code reads, and the sentences of log
-- lines.
pub mod Base
pub mod Db
pub mod Sources
pub mod Parsers
pub mod Storage
pub mod Ingest
pub mod Ops
pub mod Tests
