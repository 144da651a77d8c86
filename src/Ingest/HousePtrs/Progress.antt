-- ===== src/Ingest/HousePtrs/Progress.antt =====
-- A run that no exception ends leaves each filing of its batch classified.
use evnt_trden_public.Base.{
  ℕ, ◌≡◌, refl, sym, ◌∙◌, Bool, true, false, ◌||◌, Option, none, some, Option-cases, Bool-cases,
  inl, inr, List, [], ◌∷◌, any, Text, text_eq, arith,
}
use evnt_trden_public.Db.{Db, get_filing}
use evnt_trden_public.Parsers.HousePtr.{Word, ParsedTransaction}
use evnt_trden_public.Parsers.HousePtr.Columns.{is_electronic}
use evnt_trden_public.Parsers.HousePtr.Parse.{parse_ptr_transactions}
use evnt_trden_public.Parsers.HousePtr.Parse.Rows.{parse_ptr_transactions-rows}
use evnt_trden_public.Ingest.HousePtrs.{
  fetch_pending, Loaded, pages, load_error, unique_keys, conflict, PtrRun, Handled, went_on, raised,
  add_rows, commit, save_transactions, after_save, save_parsed, handle_loaded, go_on, parse_batch,
  parse_pending_house_ptrs,
}
use evnt_trden_public.Ingest.HousePtrs.Rows.{
  IndexedFrom, IndexedFrom-range, add_rows_unique, add_rows-Keeps,
}
use evnt_trden_public.Ingest.HousePtrs.Classified.{
  classified, Consistent, Progressed, classified-filings, mark_failed-Progressed,
  mark_paper_deferred-Progressed, set_format, set_format-Progressed, still-Progressed,
}

same_db : (a b : Db) (x y : Bool) → went_on a x ≡ went_on b y → a ≡ b
same_db a b x y e = cc

module _ (transaction_id_for : Text → ℕ → ℕ) where
  -- Rows that were added and pass the constraint.
  added-Progressed :
      (id : Text) (ts : List ParsedTransaction) (db after : Db)
      → Consistent db
      → add_rows transaction_id_for id ts (set_format id db) ≡ some after
      → unique_keys after.transactions ≡ true
      → Progressed id db after
  added-Progressed id ts db after c h u =
      let k = add_rows-Keeps transaction_id_for id ts (set_format id db) after h in
      let p = set_format-Progressed id db c in
      let step = λ (other : Text).
        classified-filings other after (set_format id db) k.filings ∙ p.classifies other in
      record {
        classifies = step;
        consistent = record {
          unique = u;
          untouched = λ other e.
              k.others other (ground (arith, step other))
                (c.untouched other (ground (arith, step other)));
        };
      }

  -- A report whose rows are numbered in order is committed, if it can be saved at all and the filing has
  -- no rows.
  no_conflict :
      (id : Text) (ts : List ParsedTransaction) (db : Db)
      → Consistent db
      → IndexedFrom 0 ts
      → classified id db ≡ false
      → commit (add_rows transaction_id_for id ts (set_format id db)) ≡ conflict
      → ⊥
  unfolding commit
  no_conflict id ts db c x n h =
      elim (Option-cases (add_rows transaction_id_for id ts (set_format id db))) [
        | inl e ↦ ground (arith, e)
        | inr (after, e) ↦ ground (
          arith,
          e,
          add_rows_unique transaction_id_for id 0 ts (set_format id db) after x (c.untouched id n)
              c.unique e,
        )
      ]

  added_outcome-Progressed :
      (id : Text) (ts : List ParsedTransaction) (db next : Db) (counts : Bool) (o : Option Db)
      → Consistent db
      → IndexedFrom 0 ts
      → add_rows transaction_id_for id ts (set_format id db) ≡ o
      → after_save db (commit o) ≡ went_on next counts
      → Progressed id db next
  unfolding after_save commit
  added_outcome-Progressed id ts db next counts none c x e h = absurd cc
  added_outcome-Progressed id ts db next counts (some after) c x e h =
      elim (Bool-cases (unique_keys after.transactions)) [
        | inl u ↦
            rw (sym (same_db after next true counts (rw u at h)))
              (added-Progressed id ts db after c e u)
        | inr u ↦ rw (sym (same_db db next false counts (rw u at h))) (
            still-Progressed id db
              (elim (Bool-cases (classified id db)) [
                | inl k ↦ k
                | inr k ↦ absurd (no_conflict id ts db c x k (rw (e, u) refl))
              ])
              c)
      ]

  report-Progressed :
      (id : Text) (words : List (List Word)) (db next : Db) (counts : Bool)
      (o : Option (List ParsedTransaction))
      → Consistent db
      → parse_ptr_transactions words ≡ o
      → save_parsed transaction_id_for id db o ≡ went_on next counts
      → Progressed id db next
  unfolding save_parsed save_transactions
  report-Progressed id words db next counts none c e h = absurd cc
  report-Progressed id words db next counts (some []) c e h =
      rw (sym (same_db _ next false counts h)) (mark_failed-Progressed id _ db c)
  report-Progressed id words db next counts (some (t ∷ ts)) c e h =
      elim (Option-cases (get_filing id db.filings)) [
        | inl f ↦
            rw (sym (same_db db next true counts (unfold after_save in rw f at h)))
              (still-Progressed id db (unfold classified in rw f refl) c)
        | inr (filing, f) ↦
            added_outcome-Progressed id (t ∷ ts) db next counts _ c
              (IndexedFrom-range 0 _ (t ∷ ts) (parse_ptr_transactions-rows words (t ∷ ts) e)) refl
              (rw f at h)
      ]

  handle_loaded-Progressed :
      (id : Text) (l : Loaded) (db next : Db) (counts : Bool)
      → Consistent db
      → handle_loaded transaction_id_for id db l ≡ went_on next counts
      → Progressed id db next
  unfolding handle_loaded
  handle_loaded-Progressed id (load_error message) db next counts c h =
      rw (sym (same_db _ next false counts h)) (mark_failed-Progressed id _ db c)
  handle_loaded-Progressed id (pages words) db next counts c h =
      elim (Bool-cases (is_electronic words)) [
        | inl e ↦ report-Progressed id words db next counts _ c refl (rw e at h)
        | inr e ↦
            rw (sym (same_db _ next false counts (rw e at h)))
              (mark_paper_deferred-Progressed id db c)
      ]

  -- The run kept the tables consistent, and gave a format to each filing of the batch.
  pub record Finished (db : Db) (batch : List (Text × Text)) (run : PtrRun) : Type 0 where
    pub consistent : Consistent run.db
    pub classifies :
        (id : Text) → classified id run.db ≡ (classified id db || any (λ p. text_eq p.0 id) batch)

  module _ (download : Text → Loaded) where
    go_on-Finished :
        (id key : Text) (rest : List (Text × Text)) (db : Db) (t : Handled)
        → ((next : Db)
            → Consistent next
            → (parse_batch transaction_id_for download rest next).crashed ≡ false
            → Finished next rest (parse_batch transaction_id_for download rest next))
        → ((next : Db) (counts : Bool) → t ≡ went_on next counts → Progressed id db next)
        → (go_on id (parse_batch transaction_id_for download rest) db t).crashed ≡ false
        → Finished db
            ((id, key) ∷ rest)
            (go_on id (parse_batch transaction_id_for download rest) db t)
    unfolding go_on
    go_on-Finished id key rest db raised finishes progresses h = absurd cc
    go_on-Finished id key rest db (went_on next true) finishes progresses h =
        let p = progresses next true refl in
        let f = finishes next p.consistent h in
        record {
          consistent = f.consistent;
          classifies = λ other. ground (arith, f.classifies other, p.classifies other);
        }
    go_on-Finished id key rest db (went_on next false) finishes progresses h =
        let p = progresses next false refl in
        let f = finishes next p.consistent h in
        record {
          consistent = f.consistent;
          classifies = λ other. ground (arith, f.classifies other, p.classifies other);
        }

    parse_batch-Finished :
        (batch : List (Text × Text)) (db : Db)
        → Consistent db
        → (parse_batch transaction_id_for download batch db).crashed ≡ false
        → Finished db batch (parse_batch transaction_id_for download batch db)
    unfolding parse_batch
    parse_batch-Finished [] db c h = record { consistent = c; classifies = λ id. ground arith }
    parse_batch-Finished ((id, key) ∷ rest) db c h =
        go_on-Finished id key rest db _ (parse_batch-Finished rest)
          (λ next counts e. handle_loaded-Progressed id (download key) db next counts c e) h

    -- A run that no exception ends leaves the tables consistent, with just the filings of its batch
    -- classified besides those that were: no filing of the batch is tried again. Before the run the
    -- constraint on the rows must hold, and no filing without a format have rows.
    pub parse_pending_house_ptrs-Finished :
        (batch_size : ℕ) (db : Db)
        → Consistent db
        → (parse_pending_house_ptrs transaction_id_for download batch_size db).crashed ≡ false
        → Finished db
            (fetch_pending batch_size db)
            (parse_pending_house_ptrs transaction_id_for download batch_size db)
    unfolding parse_pending_house_ptrs
    parse_pending_house_ptrs-Finished batch_size db c h =
        parse_batch-Finished (fetch_pending batch_size db) db c h
