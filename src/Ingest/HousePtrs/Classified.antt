-- ===== src/Ingest/HousePtrs/Classified.antt =====
-- Which filings have a format, and what marking one of them does.
use evnt_trden_public.Base.{
  ◌≡◌, refl, sym, ap, ◌∙◌, Bool, true, false, ◌||◌, not, Option, none, some, Option-cases,
  Bool-cases, inl, inr, List, Text, text_eq, text_eq_iff, arith,
}
use evnt_trden_public.Db.{Filing, Db, get_filing, update_filing}
use evnt_trden_public.Db.Rows.{get_filing-update_filing}
use evnt_trden_public.Ingest.HousePtrs.{
  is_unknown, set_parsed, set_failed, set_deferred, mark_failed, mark_paper_deferred, unique_keys,
}
use evnt_trden_public.Ingest.HousePtrs.Rows.{below}

abbrev pub known : Option Filing → Bool
known none = true
known (some f) = not (is_unknown f.format)

-- The filing has a format (or is gone).
unfoldable pub classified : Text → Db → Bool
classified id db = known (get_filing id db.filings)

-- The constraint on the rows holds, and a filing without a format has no rows yet.
pub record Consistent (db : Db) : Type 0 where
  pub unique : unique_keys db.transactions ≡ true
  pub untouched : (id : Text) → classified id db ≡ false → below id 0 db.transactions ≡ true

pub classified-filings :
    (id : Text) (a b : Db) → a.filings ≡ b.filings → classified id a ≡ classified id b
unfolding classified
classified-filings id a b e = ap (λ fs. known (get_filing id fs)) e

-- What handling one filing does.
pub record Progressed (id : Text) (db next : Db) : Type 0 where
  pub classifies :
      (other : Text) → classified other next ≡ (classified other db || text_eq id other)
  pub consistent : Consistent next

-- A change of the filing's row that gives it a format.
pub change-classified :
    (id other : Text) (change : Filing → Filing) (fs : List Filing)
    → ((f : Filing) → (change f).filing_id ≡ f.filing_id)
    → ((f : Filing) → is_unknown (change f).format ≡ false)
    → known (get_filing other (update_filing id change fs))
      ≡ (known (get_filing other fs) || text_eq id other)
change-classified id other change fs keeps sets =
    rw (get_filing-update_filing id other change fs keeps)
      (elim (Option-cases (get_filing other fs)) [
        | inl e ↦ rw e (ground arith)
        | inr (f, e) ↦ rw e (ground (arith, sets f))
      ])

pub marked-Progressed :
    (id : Text) (change : Filing → Filing) (db next : Db)
    → ((f : Filing) → (change f).filing_id ≡ f.filing_id)
    → ((f : Filing) → is_unknown (change f).format ≡ false)
    → next.filings ≡ update_filing id change db.filings
    → next.transactions ≡ db.transactions
    → Consistent db
    → Progressed id db next
unfolding classified
marked-Progressed id change db next keeps sets e t c =
    let step = λ (other : Text).
      ap (λ fs. known (get_filing other fs)) e
      ∙ change-classified id other change db.filings keeps sets in
    record {
      classifies = step;
      consistent = record {
        unique = rw t c.unique;
        untouched = λ other h. rw t (c.untouched other (ground (arith, step other)));
      };
    }

pub mark_failed-Progressed :
    (id detail : Text) (db : Db) → Consistent db → Progressed id db (mark_failed id detail db)
unfolding mark_failed set_failed is_unknown
mark_failed-Progressed id detail db c =
    marked-Progressed id set_failed db (mark_failed id detail db) (λ f. refl) (λ f. refl) refl refl
      c

pub mark_paper_deferred-Progressed :
    (id : Text) (db : Db) → Consistent db → Progressed id db (mark_paper_deferred id db)
unfolding mark_paper_deferred set_deferred is_unknown
mark_paper_deferred-Progressed id db c =
    marked-Progressed id set_deferred db (mark_paper_deferred id db) (λ f. refl) (λ f. refl) refl
      refl c

abbrev pub set_format : Text → Db → Db
set_format id db = record db { filings = update_filing id set_parsed db.filings }

pub set_format-Progressed :
    (id : Text) (db : Db) → Consistent db → Progressed id db (set_format id db)
unfolding set_parsed is_unknown
set_format-Progressed id db c =
    marked-Progressed id set_parsed db (set_format id db) (λ f. refl) (λ f. refl) refl refl c

-- A filing that is not found, or is classified already, has progressed as it is.
pub still-Progressed :
    (id : Text) (db : Db) → classified id db ≡ true → Consistent db → Progressed id db db
still-Progressed id db h c = record {
  classifies = λ other. elim (Bool-cases (text_eq id other)) [
    | inl e ↦ rw (e, sym ((text_eq_iff id other).0 e), h) refl
    | inr e ↦ rw e (ground arith)
  ];
  consistent = c;
}
