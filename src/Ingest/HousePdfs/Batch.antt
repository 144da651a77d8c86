-- ===== src/Ingest/HousePdfs/Batch.antt =====
-- Which filings a batch takes, and which PDF a filing gets.
use mathlib.Core.List.{Perm}
use evnt_trden_public.Base.{
  take-append-drop, ◌+◌, ◌-◌, ◌≤◌, ◌&&◌, any, not, is_some, none, some, length, codes, text_eq,
  starts_with, ℕ, zero, suc, ◌≡◌, refl, sym, ap, Bool, true, false, List, [], ◌∷◌, ◌++◌, keep, take,
  drop, All, All-map, Text, arith, ◌↔◌, ◌==◌, ==_iff, ◌⊎◌, inl, inr, Bool-cases,
}
use evnt_trden_public.Base.Sort.{
  sorted, sorted-perm, sorted-Ascending, Ascending, below_all, tail-Ascending,
}
use evnt_trden_public.Db.{Filing, Db, DqIssue, house, senate}
use evnt_trden_public.Sources.House.{pdf_url_for}
use evnt_trden_public.Ingest.HousePdfs.{
  Response, served, status_error, broken, Fetch, got, fetch_error, candidate_years, fetch_years,
  fetch_pdf, answer, waits, is_house, priority_le, failed_priority, has_failed, is_open_failure,
  names, type_priority, queue, fetch_pending,
}

module _ {ℓ} {A : Type ℓ} (le : A → A → Bool)
    (transitive : (x y z : A) → le x y ≡ true → le y z ≡ true → le x z ≡ true) where
  drop-All : (P : A → Type 0) (n : ℕ) (xs : List A) → All P xs → All P (drop n xs)
  drop-All P zero xs h = h
  drop-All P (suc n) [] h = tt
  drop-All P (suc n) (x ∷ xs) (px, h) = drop-All P n xs h

  -- Of a list in order, what is taken stands before what is left.
  take-before_drop :
      (n : ℕ) (xs : List A)
      → Ascending le xs
      → All (λ x. All (λ y. le x y ≡ true) (drop n xs)) (take n xs)
  take-before_drop zero xs h = tt
  take-before_drop (suc n) [] h = tt
  take-before_drop (suc n) (x ∷ xs) h = (
    drop-All (λ y. le x y ≡ true) n xs (below_all le transitive x xs h),
    take-before_drop n xs (tail-Ascending le transitive x xs h),
  )

priority_le-total :
    (issues : List DqIssue) (f g : Filing)
    → priority_le issues f g ≡ false
    → priority_le issues g f ≡ true
unfolding priority_le
priority_le-total issues f g h = ground arith

priority_le_trans :
    (issues : List DqIssue) (f g h : Filing)
    → priority_le issues f g ≡ true
    → priority_le issues g h ≡ true
    → priority_le issues f h ≡ true
unfolding priority_le
priority_le_trans issues f g h a b = ground arith

-- A House filing for which no PDF is stored.
abbrev pub lacks_pdf : Filing → Bool
lacks_pdf f = elim f.chamber [ house ↦ not (is_some f.raw_object_key) | senate ↦ false ]

-- A failed fetch of the filing stands unresolved.
abbrev pub is_failed : List DqIssue → Filing → Bool
is_failed issues f =
    any
      (λ (i : DqIssue).
        (elim i.filing_id [ none ↦ false | some id ↦ text_eq id f.filing_id ])
        && (text_eq i.issue_type (codes "house_pdf_fetch_failed") && not (is_some i.resolved_at)))
      issues

abbrev pub is_periodic : Filing → Bool
is_periodic f = text_eq f.filing_type (codes "P")

abbrev pub is_electronic_annual : Filing → Bool
is_electronic_annual f =
    text_eq f.filing_type (codes "O") && starts_with f.filing_id (codes "house:100")

-- The kind of `f` comes no later than that of `g`: periodic reports, electronic annual reports, others.
abbrev pub IsKindFirst : Filing → Filing → Type 0
IsKindFirst f g =
    (is_periodic f ≡ true)
    ⊎ ((is_periodic g ≡ false)
        × ((is_electronic_annual f ≡ true) ⊎ (is_electronic_annual g ≡ false)))

-- `f` may be tried before `g`: the fetch of `g` alone has failed, or that of both or neither and the kind
-- of `f` comes no later.
abbrev pub IsTriedFirst : List DqIssue → Filing → Filing → Type 0
IsTriedFirst issues f g =
    ((is_failed issues f ≡ false) × (is_failed issues g ≡ true))
    ⊎ ((is_failed issues f ≡ is_failed issues g) × IsKindFirst f g)

type_priority-IsKindFirst : (f g : Filing) → type_priority f ≤ type_priority g → IsKindFirst f g
unfolding type_priority
type_priority-IsKindFirst f g h = elim (Bool-cases (is_periodic f)) [
  | inl e ↦ inl e
  | inr e ↦ inr (
    ground arith,
    elim (Bool-cases (is_electronic_annual f)) [ inl k ↦ inl k | inr k ↦ inr (ground arith) ],
  )
]

priority_le-IsTriedFirst :
    (issues : List DqIssue) (f g : Filing) → priority_le issues f g ≡ true → IsTriedFirst issues f g
unfolding priority_le failed_priority has_failed is_open_failure names
priority_le-IsTriedFirst issues f g h = elim (Bool-cases (is_failed issues f)) [
  | inl e ↦ inr (ground arith, type_priority-IsKindFirst f g (ground arith))
  | inr e ↦ elim (Bool-cases (is_failed issues g)) [
    | inl k ↦ inl (e, k)
    | inr k ↦ inr (ground arith, type_priority-IsKindFirst f g (ground arith))
  ]
]

waits-lacks_pdf : (f : Filing) → waits f ≡ lacks_pdf f
unfolding waits is_house
waits-lacks_pdf f = ground arith

keep-waits : (fs : List Filing) → keep waits fs ≡ keep lacks_pdf fs
keep-waits [] = refl
keep-waits (f ∷ fs) = ground (arith, waits-lacks_pdf f, keep-waits fs)

length-take :
    {A : Type 0} (n : ℕ) (xs : List A)
    → (length (take n xs) ≤ n) × ((length (take n xs) ≡ n) ⊎ (drop n xs ≡ []))
length-take zero xs = (omega arith, inl refl)
length-take (suc n) [] = (omega arith, inr refl)
length-take (suc n) (x ∷ xs) =
    let (few, full) = length-take n xs in
    (omega arith, elim full [ inl e ↦ inl (omega arith) | inr e ↦ inr e ])

-- A choice of the House filings without a PDF: together with the others they are all such filings, they
-- are as many as the limit or all of them, and each may be tried before any of the others.
pub record IsBest (limit : ℕ) (db : Db) (picked : List Filing) : Type 0 where
  pub others : List Filing
  pub all : Perm (picked ++ others) (keep lacks_pdf db.filings)
  pub few : length picked ≤ limit
  pub full : (length picked ≡ limit) ⊎ (others ≡ [])
  pub first : All (λ f. All (λ g. IsTriedFirst db.dq_issues f g) others) picked

-- A batch is a best choice of the House filings without a PDF: it has as many as the limit, or all of
-- them; no filing whose fetch has failed is tried while one that has not failed is left out, and of those
-- that are alike in this no other report while a periodic or an electronic annual one is, and no annual
-- one while a periodic one is.
pub fetch_pending-IsBest : (limit : ℕ) (db : Db) → IsBest limit db (fetch_pending limit db)
unfolding fetch_pending queue
fetch_pending-IsBest limit db =
    let le = priority_le db.dq_issues in
    let waiting = keep waits db.filings in
    let size = length-take limit (sorted le waiting) in
    record {
      others = drop limit (sorted le waiting);
      all =
          rw (sym (keep-waits db.filings))
            (rw (take-append-drop limit (sorted le waiting)) (sorted-perm le waiting));
      few = size.0;
      full = size.1;
      first =
          All-map _ _
            (λ f h.
              All-map _ _ (λ g k. priority_le-IsTriedFirst db.dq_issues f g k)
                (drop limit (sorted le waiting)) h)
            (take limit (sorted le waiting))
            (take-before_drop le (priority_le_trans db.dq_issues) limit (sorted le waiting)
              (sorted-Ascending le (priority_le-total db.dq_issues) waiting));
    }

-- The site serves these bytes in one of the years, and answers 404 in each year before it.
pub data Serves (site : Text → Response) (doc_id filing_type : Text)
    : List ℕ → ℕ → Text → Type 0 where
  here :
      (year : ℕ) (years : List ℕ) (content : Text)
      → site (pdf_url_for doc_id filing_type year) ≡ served content
      → Serves site doc_id filing_type (year ∷ years) year content
  later :
      (other year : ℕ) (years : List ℕ) (content message : Text)
      → site (pdf_url_for doc_id filing_type other) ≡ status_error 404 message
      → Serves site doc_id filing_type years year content
      → Serves site doc_id filing_type (other ∷ years) year content

not_got : (message : Text) (year : ℕ) (content : Text) → fetch_error message ≡ got year content → ⊥
not_got message year content h = cc

-- The answer is a PDF of this year, or one of the next years behind a 404.
answer-got :
    (year found : ℕ) (next : Text → Fetch) (r : Response) (content : Text)
    → answer year next r ≡ got found content
    → ((year ≡ found) × (r ≡ served content))
      ⊎ ((message : Text) × (r ≡ status_error 404 message) × (next message ≡ got found content))
unfolding answer
answer-got year found next (served c) content h = inl (cc, cc)
answer-got year found next (status_error code message) content h = elim (Bool-cases (code == 404)) [
  | inl e ↦ inr (message, ap (λ n. status_error n message) ((==_iff code 404).0 e), (rw e at h))
  | inr e ↦ absurd (not_got message found content (rw e at h))
]
answer-got year found next (broken message) content h = absurd (not_got message found content h)

module _ (site : Text → Response) (doc_id filing_type : Text) where
  fetch_years_sound :
      (years : List ℕ) (last content : Text) (year : ℕ)
      → fetch_years site doc_id filing_type last years ≡ got year content
      → Serves site doc_id filing_type years year content
  unfolding fetch_years
  fetch_years_sound [] last content year h = absurd cc
  fetch_years_sound (y ∷ years) last content year h =
      elim (answer-got y year (λ m. fetch_years site doc_id filing_type m years)
        (site (pdf_url_for doc_id filing_type y)) content h) [
          | inl (e, f) ↦ rw (sym e) (here y years content f)
          | inr (m, e, f) ↦
              later y year years content m e (fetch_years_sound years m content year f)
        ]

  fetch_years_complete :
      (years : List ℕ) (last content : Text) (year : ℕ)
      → Serves site doc_id filing_type years year content
      → fetch_years site doc_id filing_type last years ≡ got year content
  unfolding fetch_years answer
  fetch_years_complete [] last content year h = elim h [ ]
  fetch_years_complete (y ∷ years) last content year (here _ _ _ e) = rw e refl
  fetch_years_complete (y ∷ years) last content year (later _ _ _ _ m e h) =
      rw e (fetch_years_complete years m content year h)

  -- A PDF is found just if the site serves it for the filed year, the year before or the year after, in
  -- this order and behind nothing but 404s; it is the first such one.
  pub fetch_pdf-Serves :
      (filed_year year : ℕ) (content : Text)
      → (fetch_pdf site doc_id filing_type filed_year ≡ got year content)
        ↔ Serves site doc_id filing_type
            (filed_year ∷ (filed_year - 1) ∷ (filed_year + 1) ∷ [])
            year
            content
  unfolding fetch_pdf candidate_years
  fetch_pdf-Serves filed_year year content = (
    fetch_years_sound (filed_year ∷ (filed_year - 1) ∷ (filed_year + 1) ∷ []) [] content year,
    fetch_years_complete (filed_year ∷ (filed_year - 1) ∷ (filed_year + 1) ∷ []) [] content year,
  )
