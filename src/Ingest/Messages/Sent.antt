-- ===== src/Ingest/Messages/Sent.antt =====
-- When a message is sent.
use evnt_trden_public.Base.{
  ℕ, ◌+◌, ◌<◌, ◌≡◌, refl, ◌∙◌, ◌⊎◌, inl, inr, Bool, ◌&&◌, Option, none, some, List, [], ◌∷◌, ◌++◌,
  map, keep, count_if, length, one_of, ◌==◌, if◌then◌else◌, Text, codes, text_eq, arith,
}
use evnt_trden_public.Base.Decimal.{print_ℕ}
use evnt_trden_public.Base.Float.{Float}
use evnt_trden_public.Base.Sort.{place, sorted, length-sorted}
use evnt_trden_public.Db.{Filing, Transaction, Db}
use evnt_trden_public.Ingest.Messages.{
  Member, is_announced, announced, rows_of, lines_of, message_of, notify_parsed_transactions,
}

-- The sum of `g` over a list.
abbrev pub sum_of {ℓ} : {A : Type ℓ} → (A → ℕ) → List A → ℕ
sum_of g [] = 0
sum_of g (x ∷ xs) = g x + sum_of g xs

module _ {A : Type 0} (le : A → A → Bool) (g : A → ℕ) where
  sum_of-place : (x : A) (ys : List A) → sum_of g (place le x ys) ≡ g x + sum_of g ys
  unfolding place
  sum_of-place x [] = refl
  sum_of-place x (y ∷ ys) = ground (arith, sum_of-place x ys)

  sum_of-sorted : (xs : List A) → sum_of g (sorted le xs) ≡ sum_of g xs
  unfolding sorted
  sum_of-sorted [] = refl
  sum_of-sorted (x ∷ xs) = ground (arith, sum_of-place x (sorted le xs), sum_of-sorted xs)

sum_of-keep :
    {A : Type 0} (g : A → ℕ) (q : A → Bool) (xs : List A)
    → sum_of g (keep q xs) ≡ sum_of (λ x. if q x then g x else 0) xs
sum_of-keep g q [] = refl
sum_of-keep g q (x ∷ xs) = ground (arith, sum_of-keep g q xs)

length-keep : {A : Type 0} (q : A → Bool) (xs : List A) → length (keep q xs) ≡ count_if q xs
length-keep q [] = refl
length-keep q (x ∷ xs) = ground (arith, length-keep q xs)

length-append-map :
    {A B : Type 0} (f : A → B) (xs : List A) (ys : List B)
    → length (map f xs ++ ys) ≡ length xs + length ys
length-append-map f [] ys = omega arith
length-append-map f (x ∷ xs) ys = ground (arith, length-append-map f xs ys)

-- The number of the filing's transactions.
abbrev pub row_count : List Transaction → Filing → ℕ
row_count transactions f = count_if (λ t. text_eq t.filing_id f.filing_id) transactions

-- A filing of the batch that was seen within five minutes of its publication.
abbrev pub is_live : List Text → Filing → Bool
is_live ids f = one_of ids f.filing_id && f.first_seen_precision_s == 300

-- The number of the transactions of the batch's live filings.
abbrev pub live_count : List Text → Db → ℕ
live_count ids db =
    sum_of (λ f. if is_live ids f then row_count db.transactions f else 0) db.filings

-- The message on `n` transactions: none on none, and else one whose first line gives the number.
abbrev pub IsMessage : Text → ℕ → Option Text → Type 0
IsMessage chamber n message =
    ((n ≡ 0) × (message ≡ none))
    ⊎ ((0 < n)
        × ((rest : Text) × (message
              ≡ some (
                  chamber ++ codes ": " ++ print_ℕ n ++ codes " transaction(s) parsed\n" ++ rest))))

length-rows_of :
    (id : Text) (transactions : List Transaction)
    → length (rows_of id transactions) ≡ count_if (λ t. text_eq t.filing_id id) transactions
unfolding rows_of
length-rows_of id transactions =
    length-sorted _ (keep (λ t. text_eq t.filing_id id) transactions)
    ∙ length-keep (λ t. text_eq t.filing_id id) transactions

sum_of-announced :
    (ids : List Text) (db : Db)
    → sum_of (row_count db.transactions) (announced ids db.filings) ≡ live_count ids db
unfolding announced is_announced
sum_of-announced ids db =
    sum_of-sorted _ (row_count db.transactions) (keep (is_live ids) db.filings)
    ∙ sum_of-keep (row_count db.transactions) (is_live ids) db.filings

module _ (print_amount : Float → Text) (member_of : Text → Option Member) where
  length-lines_of :
      (url_for : Filing → Text) (transactions : List Transaction) (fs : List Filing)
      → length (lines_of print_amount member_of url_for transactions fs)
        ≡ sum_of (row_count transactions) fs
  unfolding lines_of
  length-lines_of url_for transactions [] = refl
  length-lines_of url_for transactions (f ∷ fs) =
      length-append-map _ (rows_of f.filing_id transactions)
        (lines_of print_amount member_of url_for transactions fs)
      ∙ ground
          (arith, length-rows_of f.filing_id transactions, length-lines_of url_for transactions fs)

  message_of-IsMessage :
      (chamber : Text) (lines : List Text)
      → IsMessage chamber (length lines) (message_of print_amount member_of chamber lines)
  unfolding message_of
  message_of-IsMessage chamber [] = inl (refl, refl)
  message_of-IsMessage chamber (l ∷ ls) = inr (omega arith, (_, refl))

  -- The message on a batch counts the transactions of its filings that were detected live, within five
  -- minutes: its first line gives that number, and there is no message just if the number is 0, as it is
  -- for filings of a backfill alone.
  pub notify_parsed_transactions-IsMessage :
      (chamber : Text) (url_for : Filing → Text) (ids : List Text) (db : Db)
      → IsMessage chamber
          (live_count ids db)
          (notify_parsed_transactions print_amount member_of chamber url_for ids db)
  unfolding notify_parsed_transactions
  notify_parsed_transactions-IsMessage chamber url_for ids db =
      let lines =
        lines_of print_amount member_of url_for db.transactions (announced ids db.filings) in
      let count : length lines ≡ live_count ids db =
        length-lines_of url_for db.transactions (announced ids db.filings)
        ∙ sum_of-announced ids db in
      rw count at (message_of-IsMessage chamber lines)
