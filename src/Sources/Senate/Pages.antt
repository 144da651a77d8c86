-- ===== src/Sources/Senate/Pages.antt =====
-- The pages of the index, put together, are the whole list.
use evnt_trden_public.Base.{
  ℕ, zero, suc, ◌+◌, ◌≤◌, ◌<◌, ◌≡◌, refl, sym, ap, ◌∙◌, Option, none, some, ◌>>=◌, List, [], ◌∷◌,
  ◌++◌, append_assoc, append-nil, ltb, Text, codes, text_eq, length, take, drop, take-append-drop,
  length-take-drop, Bool-cases, inl, inr, arith,
}
use evnt_trden_public.Sources.Senate.{
  SenateIndexEntry, parse_row, parse_rows, Try, returned, on_return, Answer, body, raw_rows, is_ok,
  read_answer, fetch_raw_rows, parsed, page_round, read_page, fetch_pages, fetch_ptr_index,
}

-- One parse after the other.
abbrev then_append :
    Option (List SenateIndexEntry) → Option (List SenateIndexEntry) → Option (List SenateIndexEntry)
then_append first second = do a ← first; b ← second; some (a ++ b)

then_append_assoc :
    (x y z : Option (List SenateIndexEntry))
    → then_append (then_append x y) z ≡ then_append x (then_append y z)
then_append_assoc none y z = refl
then_append_assoc (some a) none z = refl
then_append_assoc (some a) (some b) none = refl
then_append_assoc (some a) (some b) (some c) = ap some (append_assoc a b c)

nil-then_append : (x : Option (List SenateIndexEntry)) → then_append (some []) x ≡ x
nil-then_append none = refl
nil-then_append (some a) = refl

pub parse_rows-append :
    (xs ys : List (List Text)) → parse_rows (xs ++ ys) ≡ then_append (parse_rows xs) (parse_rows ys)
unfolding parse_rows
parse_rows-append [] ys = sym (nil-then_append (parse_rows ys))
parse_rows-append (x ∷ xs) ys =
    ap (then_append (parse_row x)) (parse_rows-append xs ys)
    ∙ sym (then_append_assoc (parse_row x) (parse_rows xs) (parse_rows ys))

module _ {ℓ} {A : Type ℓ} where
  drop-nil : (n : ℕ) → drop {A = A} n [] ≡ []
  drop-nil zero = refl
  drop-nil (suc n) = refl

  drop-add : (m n : ℕ) (xs : List A) → drop (m + n) xs ≡ drop n (drop m xs)
  drop-add zero n xs = ap (λ k. drop k xs) (omega arith)
  drop-add (suc m) n [] = drop-nil (suc m + n) ∙ sym (drop-nil n)
  drop-add (suc m) n (x ∷ xs) =
      let e : suc m + n ≡ suc (m + n) = omega arith in ap (λ k. drop k (x ∷ xs)) e ∙ drop-add m n xs

  drop_all : (n : ℕ) (xs : List A) → length (take n xs) < n → drop n xs ≡ []
  drop_all zero xs h = absurd (omega arith)
  drop_all (suc n) [] h = refl
  drop_all (suc n) (x ∷ xs) h = drop_all n xs (omega arith)

module _ (search : ℕ → ℕ → Answer) (print_body : Option Text → List (List Text) → Text)
    (value_error : Text) where
  abbrev whole : Option (List SenateIndexEntry) → Try (List SenateIndexEntry)
  whole = parsed search print_body value_error

  later_lem :
      (es : List SenateIndexEntry) (rest : Option (List SenateIndexEntry))
      → on_return (whole rest) (λ r. returned (es ++ r)) ≡ whole (then_append (some es) rest)
  unfolding parsed
  later_lem es none = refl
  later_lem es (some r) = refl

  -- A page in front of what the later rounds find.
  page_round-then_append :
      (size count : ℕ) (first rest : Option (List SenateIndexEntry))
      (more : Option (Try (List SenateIndexEntry)))
      → (count < size → rest ≡ some [])
      → (size ≤ count → more ≡ some (whole rest))
      → page_round search print_body value_error size count more (whole first)
        ≡ some (whole (then_append first rest))
  unfolding page_round parsed
  page_round-then_append size count none rest more last next = refl
  page_round-then_append size count (some es) rest more last next =
      elim (Bool-cases (ltb count size)) [
        | inl e ↦ rw (e, last (ground arith)) (ap (λ xs. some (returned xs)) (sym (append-nil es)))
        | inr e ↦ rw (e, next (ground arith)) (ap some (later_lem es rest))
      ]

  -- The site answers each request with that part of its list.
  abbrev pub Serves : List (List Text) → Type 0
  Serves all =
      (start len : ℕ) → search start len ≡ body (some (codes "ok")) (take len (drop start all))

  module _ (all : List (List Text)) (serves : Serves all) (size : ℕ) (positive : 0 < size) where
    fetch_raw_rows_lem :
        (start len : ℕ)
        → fetch_raw_rows search print_body value_error start len
          ≡ returned (take len (drop start all))
    unfolding fetch_raw_rows read_answer raw_rows is_ok text_eq
    fetch_raw_rows_lem start len = rw (serves start len) refl

    fetch_pages_lem :
        (fuel start : ℕ)
        → length (drop start all) < fuel
        → fetch_pages search print_body value_error fuel size start
          ≡ some (whole (parse_rows (drop start all)))
    unfolding fetch_pages read_page
    fetch_pages_lem zero start h = absurd (omega arith)
    fetch_pages_lem (suc fuel) start h =
        let xs = drop start all in
        rw (fetch_raw_rows_lem start size) (
          page_round-then_append size (length (take size xs)) (parse_rows (take size xs))
            (parse_rows (drop size xs))
            (fetch_pages search print_body value_error fuel size (start + size))
            (λ short. unfold parse_rows in (ap parse_rows (drop_all size xs short)))
            (λ full.
              fetch_pages_lem fuel (start + size) (
                omega (
                  arith,
                  ap (length {0}) (drop-add start size all),
                  length-take-drop size (drop start all),
                ))
              ∙ ap (λ ys. some (whole (parse_rows ys))) (drop-add start size all))
          ∙ ap (λ o. some (whole o))
              (sym (parse_rows-append (take size xs) (drop size xs))
                ∙ ap parse_rows (take-append-drop size xs)))

    -- Where the site answers each request with that part of one list, the index is what that list is
    -- read as, whatever the size of a page: no row is lost or read twice at a boundary, and rows that
    -- are no entries end nothing. The loop takes at most one round more than there are rows.
    pub fetch_ptr_index-whole :
        (fuel : ℕ)
        → length all < fuel
        → fetch_ptr_index search print_body value_error fuel size
          ≡ some (parsed search print_body value_error (parse_rows all))
    unfolding fetch_ptr_index
    fetch_ptr_index-whole fuel h = fetch_pages_lem fuel 0 h
