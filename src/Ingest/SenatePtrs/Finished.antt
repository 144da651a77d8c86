-- ===== src/Ingest/SenatePtrs/Finished.antt =====
-- A run of the Senate report step that no exception ends leaves no filing of its batch pending.
use evnt_trden_public.Base.{
  ℕ, ◌≡◌, refl, sym, ap, ◌∙◌, Bool, true, false, ◌&&◌, not, Option, none, some, Option-cases,
  Bool-cases, inl, inr, List, [], ◌∷◌, any, Text, text_eq, text_eq_iff, arith, ◌==◌,
}
use evnt_trden_public.Db.{Filing, Db, get_filing, update_filing}
use evnt_trden_public.Db.Rows.{get_filing-update_filing}
use evnt_trden_public.Parsers.SenatePtr.{ParsedTransaction}
use evnt_trden_public.Ingest.HousePdfs.{Attempt, archived_as, gave_up}
use evnt_trden_public.Ingest.HousePtrs.{commit, unique_keys}
use evnt_trden_public.Ingest.SenatePtrs.{
  is_pending, fetch_pending, set_failed, mark_failed, set_parsed, Response, State, Handled, went_on,
  raised, PtrRun, after_save, go_on, add_row, add_rows, save_transactions, save_stored,
  handle_parsed, handle_response, parse_batch, parse_pending_senate_ptrs,
}

abbrev pending_row : Option Filing → Bool
pending_row none = false
pending_row (some f) = is_pending f.parse_status

-- The filing stands in the table and waits to be parsed.
unfoldable pub awaits : Text → Db → Bool
awaits id db = pending_row (get_filing id db.filings)

-- Just this filing stops waiting.
pub Settles : Text → Db → Db → Type 0
Settles id db next =
    (other : Text) → awaits other next ≡ (awaits other db && not (text_eq id other))

change-awaits :
    (id : Text) (change : Filing → Filing) (db next : Db)
    → ((f : Filing) → (change f).filing_id ≡ f.filing_id)
    → ((f : Filing) → is_pending (change f).parse_status ≡ false)
    → next.filings ≡ update_filing id change db.filings
    → Settles id db next
unfolding awaits Settles
change-awaits id change db next keeps sets e other =
    rw (e, get_filing-update_filing id other change db.filings keeps)
      (elim (Option-cases (get_filing other db.filings)) [
        | inl f ↦ rw f (ground arith)
        | inr (g, f) ↦ rw f (ground (arith, sets g))
      ])

mark_failed-Settles : (id detail : Text) (db : Db) → Settles id db (mark_failed id detail db)
unfolding mark_failed set_failed is_pending
mark_failed-Settles id detail db =
    change-awaits id set_failed db (mark_failed id detail db) (λ f. refl) (λ f. refl) refl

-- A filing that is not in the table does not wait.
absent-Settles : (id : Text) (db : Db) → get_filing id db.filings ≡ none → Settles id db db
unfolding awaits Settles
absent-Settles id db e other = elim (Bool-cases (text_eq id other)) [
  | inl same ↦ rw (same, sym ((text_eq_iff id other).0 same), e) refl
  | inr differs ↦ rw differs (ground arith)
]

same_state : (a b : State) (x y : Bool) → went_on a x ≡ went_on b y → a ≡ b
same_state a b x y e = cc

not_raised : (s next : State) (counts : Bool) → raised s ≡ went_on next counts → ⊥
not_raised s next counts e = absurd cc

committed-Settles :
    (id : Text) (change : Filing → Filing) (s next : State) (after : Db) (counts : Bool)
    → ((f : Filing) → (change f).filing_id ≡ f.filing_id)
    → ((f : Filing) → is_pending (change f).parse_status ≡ false)
    → after.filings ≡ update_filing id change s.db.filings
    → after_save s (commit (some after)) ≡ went_on next counts
    → Settles id s.db next.db
unfolding after_save commit
committed-Settles id change s next after counts keeps sets e h =
    elim (Bool-cases (unique_keys after.transactions)) [
      | inl u ↦
          rw (sym (ap (λ (x : State). x.db) (same_state _ next true counts (rw u at h))))
            (change-awaits id change s.db after keeps sets e)
      | inr u ↦ absurd (not_raised _ _ _ (rw u at h))
    ]

module _ (transaction_id_for : Text → ℕ → ℕ) where
  add_row-filings :
      (id : Text) (t : ParsedTransaction) (type : Option Text) (db : Db)
      → (add_row transaction_id_for id t type db).filings ≡ db.filings
  unfolding add_row
  add_row-filings id t none db = refl
  add_row-filings id t (some type) db = refl

  add_rows-filings :
      (id : Text) (ts : List ParsedTransaction) (db : Db)
      → (add_rows transaction_id_for id ts db).filings ≡ db.filings
  unfolding add_rows
  add_rows-filings id [] db = refl
  add_rows-filings id (t ∷ ts) db =
      add_rows-filings id ts (add_row transaction_id_for id t t.tx_type db)
      ∙ add_row-filings id t t.tx_type db

  saved-Settles :
      (id key sha256 : Text) (ts : List ParsedTransaction) (s next : State) (counts : Bool)
      → after_save s (save_transactions transaction_id_for id key sha256 ts s.db)
        ≡ went_on next counts
      → Settles id s.db next.db
  unfolding save_transactions after_save set_parsed is_pending
  saved-Settles id key sha256 ts s next counts h =
      elim (Option-cases (get_filing id s.db.filings)) [
        | inl e ↦
            rw (sym (ap (λ (x : State). x.db) (same_state _ next true counts (rw e at h))))
              (absent-Settles id s.db e)
        | inr (f, e) ↦
            committed-Settles id (set_parsed key sha256) s next
              (add_rows transaction_id_for id ts
                (record s.db { filings = update_filing id (set_parsed key sha256) s.db.filings }))
              counts (λ f. refl) (λ f. refl)
              (add_rows-filings id ts
                (record s.db { filings = update_filing id (set_parsed key sha256) s.db.filings }))
              (rw e at h)
      ]

  module _ (site : Text → Response) (table_rows : Text → Option (List (List Text)))
      (sha256_hex : Text → Text) (upload_error : Text → Option Text) (ceiling : ℕ) where
    save_stored-Settles :
        (id : Text) (ts : List ParsedTransaction) (s next : State) (counts : Bool) (a : Attempt)
        → save_stored transaction_id_for site table_rows sha256_hex upload_error ceiling id ts s a
          ≡ went_on next counts
        → Settles id s.db next.db
    unfolding save_stored
    save_stored-Settles id ts s next counts (gave_up message) h =
        rw (sym (ap (λ (x : State). x.db) (same_state _ next false counts h)))
          (mark_failed-Settles id _ s.db)
    save_stored-Settles id ts s next counts (archived_as key html b) h =
        saved-Settles id key (sha256_hex html) ts (record s { archive = b }) next counts h

    handle_parsed-Settles :
        (id uuid html : Text) (s next : State) (counts : Bool) (o : Option (List ParsedTransaction))
        → handle_parsed transaction_id_for site table_rows sha256_hex upload_error ceiling id uuid
            html s o
          ≡ went_on next counts
        → Settles id s.db next.db
    unfolding handle_parsed
    handle_parsed-Settles id uuid html s next counts none h = absurd (not_raised s next counts h)
    handle_parsed-Settles id uuid html s next counts (some []) h =
        rw (sym (ap (λ (x : State). x.db) (same_state _ next false counts h)))
          (mark_failed-Settles id _ s.db)
    handle_parsed-Settles id uuid html s next counts (some (t ∷ ts)) h =
        save_stored-Settles id (t ∷ ts) s next counts _ h

    handle_response-Settles :
        (id uuid : Text) (s next : State) (counts : Bool) (response : Response)
        → handle_response transaction_id_for site table_rows sha256_hex upload_error ceiling id uuid
            s response
          ≡ went_on next counts
        → Settles id s.db next.db
    unfolding handle_response
    handle_response-Settles id uuid s next counts response h =
        elim (Bool-cases (response.status_code == 200)) [
          | inl e ↦ handle_parsed-Settles id uuid response.text s next counts _ (rw e at h)
          | inr e ↦
              rw (sym (ap (λ (x : State). x.db) (same_state _ next false counts (rw e at h))))
                (mark_failed-Settles id _ s.db)
        ]

    abbrev batch_run : List (Text × Text) → State → PtrRun
    batch_run = parse_batch transaction_id_for site table_rows sha256_hex upload_error ceiling

    -- The filings of the batch wait no longer; all others are as they were.
    pub Finished : Db → List (Text × Text) → PtrRun → Type 0
    Finished db batch run =
        (id : Text)
        → awaits id run.state.db ≡ (awaits id db && not (any (λ p. text_eq p.0 id) batch))

    go_on-Finished :
        (id uuid : Text) (rest : List (Text × Text)) (s : State) (t : Handled)
        → ((next : State)
            → (batch_run rest next).crashed ≡ false
            → Finished next.db rest (batch_run rest next))
        → ((next : State) (counts : Bool) → t ≡ went_on next counts → Settles id s.db next.db)
        → (go_on id (batch_run rest) t).crashed ≡ false
        → Finished s.db ((id, uuid) ∷ rest) (go_on id (batch_run rest) t)
    unfolding go_on Finished Settles
    go_on-Finished id uuid rest s (raised after) finishes settles h = absurd cc
    go_on-Finished id uuid rest s (went_on next true) finishes settles h =
        λ other. ground (arith, finishes next h other, settles next true refl other)
    go_on-Finished id uuid rest s (went_on next false) finishes settles h =
        λ other. ground (arith, finishes next h other, settles next false refl other)

    parse_batch-Finished :
        (batch : List (Text × Text)) (s : State)
        → (batch_run batch s).crashed ≡ false
        → Finished s.db batch (batch_run batch s)
    unfolding parse_batch Finished
    parse_batch-Finished [] s h = λ id. ground arith
    parse_batch-Finished ((id, uuid) ∷ rest) s h =
        go_on-Finished id uuid rest s _ (parse_batch-Finished rest)
          (λ next counts e. handle_response-Settles id uuid s next counts _ e) h

    -- After a run that no exception ends the filings of its batch are no longer pending, and of all
    -- other filings those are pending that were before.
    pub parse_pending_senate_ptrs-Finished :
        (batch_size : ℕ) (s : State)
        → (parse_pending_senate_ptrs transaction_id_for site table_rows sha256_hex upload_error
            ceiling batch_size s).crashed
          ≡ false
        → Finished s.db (fetch_pending batch_size s.db) (
            parse_pending_senate_ptrs transaction_id_for site table_rows sha256_hex upload_error
              ceiling batch_size s)
    unfolding parse_pending_senate_ptrs
    parse_pending_senate_ptrs-Finished batch_size s h =
        parse_batch-Finished (fetch_pending batch_size s.db) s h
