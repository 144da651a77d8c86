-- ===== src/Ingest/HouseFds/Finished.antt =====
-- A run of the annual report step leaves each report of its batch classified.
use evnt_trden_public.Base.{
  ℕ, ◌≡◌, refl, sym, ap, ◌∙◌, true, false, ◌||◌, not, Option, Option-cases, Bool-cases, inl, inr,
  List, [], ◌∷◌, ◌++◌, map, any, is_empty, length, range_from, Text, text_eq, text_eq_iff, arith,
}
use evnt_trden_public.Db.{Filing, get_filing, update_filing}
use evnt_trden_public.Parsers.HouseFd.{parse_schedule_a, report_year, has_schedule_a}
use evnt_trden_public.Parsers.HouseFd.Row.{ParsedHolding}
use evnt_trden_public.Parsers.HouseFd.Holdings.{parse_schedule_a-IsNumbered}
use evnt_trden_public.Ingest.HousePtrs.{Loaded, pages, load_error, is_unknown}
use evnt_trden_public.Ingest.HousePtrs.Classified.{known, classified, change-classified}
use evnt_trden_public.Ingest.HouseFds.{
  holding_of, Tables, unique_keys, set_parsed, set_failed, set_deferred, mark_failed,
  mark_paper_deferred, commit, save_holdings, Handled, saved, stored_already, set_aside, after_save,
  handle_pages, handle_loaded, FdRun, go_on, parse_batch, fetch_pending, parse_pending_house_fds,
}
use evnt_trden_public.Ingest.HouseFds.Rows.{
  has_rows, has_rows-append, has_rows-holding_of, unique_keys-append,
}

-- The constraint on the rows holds, and a report without a format has no rows yet.
pub record Consistent (s : Tables) : Type 0 where
  pub unique : unique_keys s.holdings ≡ true
  pub untouched : (id : Text) → classified id s.db ≡ false → has_rows id s.holdings ≡ false

-- Just this report gets a format.
record Progressed (id : Text) (s next : Tables) : Type 0 where
  classifies :
      (other : Text) → classified other next.db ≡ (classified other s.db || text_eq id other)
  consistent : Consistent next

-- A change of the report's row that gives it a format, with rows of this report at most.
marked-Progressed :
    (id : Text) (change : Filing → Filing) (s next : Tables)
    → ((f : Filing) → (change f).filing_id ≡ f.filing_id)
    → ((f : Filing) → is_unknown (change f).format ≡ false)
    → next.db.filings ≡ update_filing id change s.db.filings
    → unique_keys next.holdings ≡ true
    → ((other : Text)
        → text_eq id other ≡ false
        → has_rows other s.holdings ≡ false
        → has_rows other next.holdings ≡ false)
    → Consistent s
    → Progressed id s next
unfolding classified
marked-Progressed id change s next keeps sets e u others c =
    let step = λ (other : Text).
      ap (λ fs. known (get_filing other fs)) e
      ∙ change-classified id other change s.db.filings keeps sets in
    record {
      classifies = step;
      consistent = record {
        unique = u;
        untouched = λ other h.
            others other (ground (arith, step other))
              (c.untouched other (ground (arith, step other)));
      };
    }

mark_failed-Progressed :
    (id detail : Text) (s : Tables) → Consistent s → Progressed id s (mark_failed id detail s)
unfolding mark_failed set_failed is_unknown
mark_failed-Progressed id detail s c =
    marked-Progressed id set_failed s (mark_failed id detail s) (λ f. refl) (λ f. refl) refl
      c.unique (λ other ne h. h) c

mark_paper_deferred-Progressed :
    (id : Text) (s : Tables) → Consistent s → Progressed id s (mark_paper_deferred id s)
unfolding mark_paper_deferred set_deferred is_unknown
mark_paper_deferred-Progressed id s c =
    marked-Progressed id set_deferred s (mark_paper_deferred id s) (λ f. refl) (λ f. refl) refl
      c.unique (λ other ne h. h) c

still-Progressed :
    (id : Text) (s : Tables) → classified id s.db ≡ true → Consistent s → Progressed id s s
still-Progressed id s h c = record {
  classifies = λ other. elim (Bool-cases (text_eq id other)) [
    | inl e ↦ rw (e, sym ((text_eq_iff id other).0 e), h) refl
    | inr e ↦ rw e (ground arith)
  ];
  consistent = c;
}

-- What one report comes to, by how it ends.
abbrev Ends : Text → Tables → Handled → Type 0
Ends id s (saved next n) = Progressed id s next
Ends id s stored_already = Progressed id s s
Ends id s (set_aside next) = Progressed id s next

module _ (id : Text) (year : Option ℕ) (hs : List ParsedHolding) (s : Tables) (c : Consistent s)
    (numbered : map (λ h. h.row_index) hs ≡ range_from 0 (length hs)) where
  abbrev stored : Tables
  stored = record {
    db = record s.db { filings = update_filing id set_parsed s.db.filings };
    holdings = s.holdings ++ map (holding_of id year) hs;
  }

  stored-Progressed : unique_keys stored.holdings ≡ true → Progressed id s stored
  unfolding set_parsed is_unknown
  stored-Progressed u =
      marked-Progressed id set_parsed s stored (λ f. refl) (λ f. refl) refl u
        (λ other ne h. ground (
          arith,
          has_rows-append other s.holdings (map (holding_of id year) hs),
          has_rows-holding_of id other year hs,
        ))
        c

  committed-Ends : Ends id s (after_save (length hs) (commit stored))
  unfolding after_save commit
  committed-Ends = elim (Bool-cases (unique_keys stored.holdings)) [
    | inl u ↦ rw u (stored-Progressed u)
    | inr u ↦ rw u (
        still-Progressed id s
          (elim (Bool-cases (classified id s.db)) [
            | inl k ↦ k
            | inr k ↦ ground (
              arith,
              unique_keys-append id year s.holdings hs c.unique (c.untouched id k) numbered,
            )
          ])
          c)
  ]

  save-Ends : Ends id s (after_save (length hs) (save_holdings id year hs s))
  unfolding save_holdings
  save-Ends = elim (Option-cases (get_filing id s.db.filings)) [
    | inl e ↦ rw e (unfold after_save in still-Progressed id s (unfold classified in rw e refl) c)
    | inr (f, e) ↦ rw e committed-Ends
  ]

handle_loaded-Ends :
    (id : Text) (l : Loaded) (s : Tables) → Consistent s → Ends id s (handle_loaded id s l)
unfolding handle_loaded handle_pages
handle_loaded-Ends id (load_error message) s c = mark_failed-Progressed id _ s c
handle_loaded-Ends id (pages words) s c = elim (Bool-cases (any (λ ws. not (is_empty ws)) words)) [
  | inr e ↦ rw e (mark_paper_deferred-Progressed id s c)
  | inl e ↦ rw e (elim (Bool-cases (has_schedule_a words)) [
    | inr a ↦ rw a (mark_failed-Progressed id _ s c)
    | inl a ↦ rw a (
        save-Ends id (report_year words) (parse_schedule_a words) s c
          (parse_schedule_a-IsNumbered words).0)
  ])
]

-- The tables are consistent, and just the reports of the batch have a format besides those that had.
pub record Finished (s : Tables) (batch : List (Text × Text)) (run : FdRun) : Type 0 where
  pub consistent : Consistent run.tables
  pub classifies :
      (id : Text)
      → classified id run.tables.db ≡ (classified id s.db || any (λ p. text_eq p.0 id) batch)

module _ (download : Text → Loaded) where
  after-Finished :
      (id key : Text) (rest : List (Text × Text)) (s next : Tables) (run : FdRun)
      → run.tables ≡ (parse_batch download rest next).tables
      → Progressed id s next
      → (Consistent next → Finished next rest (parse_batch download rest next))
      → Finished s ((id, key) ∷ rest) run
  after-Finished id key rest s next run e p finish =
      let f = finish p.consistent in
      record {
        consistent = rw e f.consistent;
        classifies = λ other.
            ap (λ (t : Tables). classified other t.db) e
            ∙ ground (arith, f.classifies other, p.classifies other);
      }

  go_on-Finished :
      (id key : Text) (rest : List (Text × Text)) (s : Tables) (h : Handled)
      → Ends id s h
      → ((next : Tables) → Consistent next → Finished next rest (parse_batch download rest next))
      → Finished s ((id, key) ∷ rest) (go_on (parse_batch download rest) s h)
  unfolding go_on
  go_on-Finished id key rest s (saved next n) p finish =
      after-Finished id key rest s next _ refl p (finish next)
  go_on-Finished id key rest s stored_already p finish =
      after-Finished id key rest s s _ refl p (finish s)
  go_on-Finished id key rest s (set_aside next) p finish =
      after-Finished id key rest s next _ refl p (finish next)

  parse_batch-Finished :
      (batch : List (Text × Text)) (s : Tables)
      → Consistent s
      → Finished s batch (parse_batch download batch s)
  unfolding parse_batch
  parse_batch-Finished [] s c = record { consistent = c; classifies = λ id. ground arith }
  parse_batch-Finished ((id, key) ∷ rest) s c =
      go_on-Finished id key rest s _ (handle_loaded-Ends id (download key) s c)
        (parse_batch-Finished rest)

  -- Every run of the annual report step, whatever the archive gives, keeps the constraint on
  -- (filing_id, row_index) and the absence of rows for reports without a format, if they held before,
  -- and gives a format to just the reports of its batch besides those that had one, so that none of
  -- them is tried again.
  pub parse_pending_house_fds-Finished :
      (batch_size : ℕ) (s : Tables)
      → Consistent s
      → Finished s (fetch_pending batch_size s.db) (parse_pending_house_fds download batch_size s)
  unfolding parse_pending_house_fds
  parse_pending_house_fds-Finished batch_size s c =
      parse_batch-Finished (fetch_pending batch_size s.db) s c
