-- ===== src/Ingest/CommunityArchive.antt =====
-- src/congress_collector/ingest/community_archive.py: the archive's records in `community_transactions`,
-- and which of their filings our own table has. The hash and the text of a float are arguments.
pub mod Rows
pub mod Chunked
pub mod Rematch
pub mod Late
pub mod Report
pub mod Main
use evnt_trden_public.Base.{
  ℕ, zero, suc, ◌+◌, Bool, true, false, ◌&&◌, not, Option, none, some, is_some, map_option,
  value_or, List, [], ◌∷◌, ◌++◌, map, keep, length, if◌then◌else◌, Text, text_eq, one_of, join,
  is_empty,
}
use evnt_trden_public.Base.Calendar.{Date, isoformat}
use evnt_trden_public.Base.Chunks.{chunked}
use evnt_trden_public.Base.Float.{Float}
use evnt_trden_public.Db.{Chamber}
use evnt_trden_public.Ingest.Index.{new_entries}
use evnt_trden_public.Sources.CommunityArchive.{CommunityRecord}

abbrev pub import_chunk_size : ℕ
import_chunk_size = 500

pub record CommunityTransaction : Type 0 where
  pub source : Text
  pub chamber : Chamber
  pub dedup_key : Text
  pub external_filing_id : Option Text
  pub matched_filing_id : Option Text
  pub filer_name : Option Text
  pub ticker : Option Text
  pub asset_description : Option Text
  pub asset_type : Option Text
  pub tx_type : Option Text
  pub owner : Option Text
  pub tx_date : Option Date
  pub disclosure_date : Option Date
  pub amount_min : Option Float
  pub amount_max : Option Float

-- `{i for i in ids if i}`, which stands for a set: only what is in it is asked.
unfoldable pub candidates : List (Option Text) → List Text
candidates [] = []
candidates (none ∷ ids) = candidates ids
candidates (some [] ∷ ids) = candidates ids
candidates (some (c ∷ t) ∷ ids) = (c ∷ t) ∷ candidates ids

-- `SELECT filing_id … WHERE filing_id IN …`: `filings` are the ids of the stored filings.
unfoldable pub stored_ids : List Text → List Text → List Text
stored_ids filings ids = keep (one_of ids) filings

-- `id in ids` of an id that may be `None`
abbrev pub is_in : List Text → Option Text → Bool
is_in ids none = false
is_in ids (some id) = one_of ids id

unfoldable pub existing_filing_ids : List Text → List CommunityRecord → List Text
unfolding stored_ids candidates
existing_filing_ids filings chunk =
    let ids = candidates (map (λ r. r.external_filing_id) chunk) in
    if is_empty ids then [] else stored_ids filings ids

-- `SELECT dedup_key … WHERE source = …`
unfoldable pub keys_of : Text → List CommunityTransaction → List Text
keys_of source table = map (λ ct. ct.dedup_key) (keep (λ ct. text_eq ct.source source) table)

module _ (sha256_hex : Text → Text) (repr : Float → Text) where
  unfoldable pub dedup_key_for : CommunityRecord → Text
  dedup_key_for r = sha256_hex (
      join (b'|' ∷ []) (
        value_or [] r.external_filing_id
        ∷ value_or [] r.filer_name
        ∷ value_or [] (map_option isoformat r.tx_date)
        ∷ value_or [] r.ticker
        ∷ value_or [] r.asset_description
        ∷ value_or [] r.tx_type
        ∷ value_or [] r.owner
        ∷ value_or [] (map_option repr r.amount_min)
        ∷ value_or [] (map_option repr r.amount_max)
        ∷ []))

  unfoldable pub row_of : List Text → CommunityRecord → CommunityTransaction
  row_of existing r = record {
    source = r.source;
    chamber = r.chamber;
    dedup_key = dedup_key_for r;
    external_filing_id = r.external_filing_id;
    matched_filing_id = if is_in existing r.external_filing_id then r.external_filing_id else none;
    filer_name = r.filer_name;
    ticker = r.ticker;
    asset_description = r.asset_description;
    asset_type = r.asset_type;
    tx_type = r.tx_type;
    owner = r.owner;
    tx_date = r.tx_date;
    disclosure_date = r.disclosure_date;
    amount_min = r.amount_min;
    amount_max = r.amount_max;
  }

  -- `_import_chunk`: the table after it and the number of rows that it added.
  unfoldable pub import_chunk :
      List Text
      → Text
      → List CommunityRecord
      → List CommunityTransaction
      → List CommunityTransaction × ℕ
  unfolding row_of existing_filing_ids keys_of
  import_chunk filings source chunk table =
      let new = new_entries dedup_key_for chunk (keys_of source table) in
      let rows = map (row_of (existing_filing_ids filings chunk)) new in
      (table ++ rows, length rows)

  -- The loop of `import_records`.
  unfoldable pub import_chunks :
      List Text
      → Text
      → List (List CommunityRecord)
      → List CommunityTransaction
      → List CommunityTransaction × ℕ
  import_chunks filings source [] table = (table, 0)
  import_chunks filings source (chunk ∷ chunks) table =
      let (stored, n) = import_chunk filings source chunk table in
      let (last, more) = import_chunks filings source chunks stored in (last, n + more)

  unfoldable pub import_records :
      List Text
      → Text
      → List CommunityRecord
      → List CommunityTransaction
      → List CommunityTransaction × ℕ
  import_records filings source records =
      import_chunks filings source (chunked import_chunk_size records)

-- Without a match, though the record names a filing.
unfoldable pub is_pending : CommunityTransaction → Bool
is_pending ct = not (is_some ct.matched_filing_id) && is_some ct.external_filing_id

unfoldable pub rematch_row : List Text → CommunityTransaction → CommunityTransaction × ℕ
unfolding is_pending
rematch_row existing ct =
    if is_pending ct && is_in existing ct.external_filing_id
    then (record ct { matched_filing_id = ct.external_filing_id }, 1)
    else (ct, 0)

-- The loop of `rematch_unmatched`, over the whole table: a row that is not pending is left.
unfoldable pub rematch_rows : List Text → List CommunityTransaction → List CommunityTransaction × ℕ
unfolding rematch_row
rematch_rows existing [] = ([], 0)
rematch_rows existing (ct ∷ table) =
    let (row, n) = rematch_row existing ct in
    let (rows, more) = rematch_rows existing table in (row ∷ rows, n + more)

rematch_pending :
    List Text
    → List CommunityTransaction
    → List CommunityTransaction
    → List CommunityTransaction × ℕ
unfolding rematch_rows
rematch_pending filings [] table = (table, 0)
rematch_pending filings (ct ∷ pending) table =
    rematch_rows (stored_ids filings (candidates (map (λ c. c.external_filing_id) (ct ∷ pending))))
      table

unfoldable pub rematch_unmatched :
    List Text → List CommunityTransaction → List CommunityTransaction × ℕ
unfolding rematch_pending
rematch_unmatched filings table = rematch_pending filings (keep is_pending table) table
