-- ===== src/Parsers/Scan/Verify.antt =====
-- src/congress_collector/parsers/scan_verification.py: what an extraction of a scanned report must pass. A
-- reason is kept as its numbers; its sentence is left out.
use evnt_trden_public.Base.{
  ℕ, ◌*◌, ◌≤◌, ◌≡◌, Bool, true, false, ◌&&◌, not, Option, none, some, List, [], ◌∷◌, ◌++◌, All,
  count_if, length, ltb, leb, ◌==◌, if◌then◌else◌, text_eq, strip, is_empty, arith,
}
use evnt_trden_public.Base.Float.{float_eq}
use evnt_trden_public.Parsers.HousePtr.{ParsedTransaction}

abbrev pub review_transaction_count : ℕ
review_transaction_count = 20

abbrev pub review_duplicate_count : ℕ
review_duplicate_count = 3

abbrev pub min_transactions_per_page : ℕ
min_transactions_per_page = 4

abbrev pub pages_for_density_check : ℕ
pages_for_density_check = 4

pub data Reason : Type 0 where
  blank_rows : ℕ → ℕ → Reason
  too_many : ℕ → Reason
  repeated : ℕ → Reason
  no_rows : Reason
  other_count : ℕ → ℕ → Reason
  sparse : ℕ → ℕ → Reason

pub record VerificationResult : Type 0 where
  pub ok : Bool
  pub needs_review : Bool
  pub reasons : List Reason

same_option {ℓ} : {A : Type ℓ} → (A → A → Bool) → Option A → Option A → Bool
same_option eq none none = true
same_option eq (some a) (some b) = eq a b
same_option eq _ _ = false

-- Equal keys of the `Counter`.
unfoldable pub same_row : ParsedTransaction → ParsedTransaction → Bool
unfolding same_option
same_row t u =
    same_option text_eq t.owner u.owner
    && (text_eq t.asset_description_raw u.asset_description_raw
        && (same_option text_eq t.tx_type u.tx_type
            && (same_option text_eq t.tx_date u.tx_date
                && (same_option float_eq t.amount_min u.amount_min
                    && same_option float_eq t.amount_max u.amount_max))))

unfoldable pub is_blank : ParsedTransaction → Bool
is_blank t = is_empty (strip t.asset_description_raw)

abbrev max_ℕ : ℕ → ℕ → ℕ
max_ℕ a b = if leb a b then b else a

-- `max(dupe_counts.values(), default=0)`, over the rows that are still to be looked up.
worst : List ParsedTransaction → List ParsedTransaction → ℕ
worst all [] = 0
worst all (t ∷ ts) = max_ℕ (count_if (same_row t) all) (worst all ts)

unfoldable pub worst_dupe : List ParsedTransaction → ℕ
unfolding worst
worst_dupe ts = worst ts ts

-- One check: what it does to the flags and the reasons so far.
reject_if : Bool → Reason → VerificationResult → VerificationResult
reject_if b reason r = if b then record r { ok = false; reasons = r.reasons ++ reason ∷ [] } else r

review_if : Bool → Reason → VerificationResult → VerificationResult
review_if b reason r =
    if b then record r { needs_review = true; reasons = r.reasons ++ reason ∷ [] } else r

differs : Option ℕ → ℕ → Bool
differs none n = false
differs (some reported) n = not (reported == n)

number : Option ℕ → ℕ
number none = 0
number (some n) = n

-- Fewer than four rows on a page, by the lengths.
too_sparse : Option ℕ → ℕ → Bool
too_sparse none n = false
too_sparse (some page_count) n =
    leb pages_for_density_check page_count
    && (ltb 0 n && ltb n (min_transactions_per_page * page_count))

unfoldable pub verify_extraction : List ParsedTransaction → Option ℕ → Option ℕ → VerificationResult
unfolding reject_if review_if differs number too_sparse is_blank
verify_extraction ts reported_total_rows page_count =
    let n = length ts in
    let blank = count_if is_blank ts in
    let dupes = worst_dupe ts in
    review_if (too_sparse page_count n) (sparse n (number page_count)) (
      review_if (differs reported_total_rows n) (other_count (number reported_total_rows) n) (
        review_if (is_empty ts) no_rows (
          review_if (leb review_duplicate_count dupes) (repeated dupes) (
            review_if (ltb review_transaction_count n) (too_many n) (
              reject_if (ltb 0 blank) (blank_rows blank n)
                (record { ok = true; needs_review = false; reasons = [] }))))))

-- What an extraction that is accepted without a review satisfies.
pub record Accepted (ts : List ParsedTransaction) (reported page_count : Option ℕ) : Type 0 where
  pub some_rows : 1 ≤ length ts
  pub not_many : length ts ≤ 20
  pub described : All (λ t. is_blank t ≡ false) ts
  pub rare : All (λ t. count_if (same_row t) ts ≤ 2) ts
  pub counted : (n : ℕ) → reported ≡ some n → n ≡ length ts
  pub dense : (p : ℕ) → page_count ≡ some p → 4 ≤ p → 4 * p ≤ length ts

no_blank :
    (ts : List ParsedTransaction) → count_if is_blank ts ≡ 0 → All (λ t. is_blank t ≡ false) ts
no_blank [] h = tt
no_blank (t ∷ ts) h = (ground arith, no_blank ts (ground arith))

length-not_empty : (ts : List ParsedTransaction) → is_empty ts ≡ false → 1 ≤ length ts
length-not_empty [] h = absurd cc
length-not_empty (t ∷ ts) h = ground arith

worst-bounds :
    (all ts : List ParsedTransaction)
    → worst all ts ≤ 2
    → All (λ t. count_if (same_row t) all ≤ 2) ts
unfolding worst
worst-bounds all [] h = tt
worst-bounds all (t ∷ ts) h = (ground arith, worst-bounds all ts (ground arith))

-- An extraction that is neither rejected nor sent to a review has between one and twenty rows, each with a
-- description and none standing there three times, as many as the model reported if it did, and at least
-- four to a page on four pages or more.
pub verify_extraction-Accepted :
    (ts : List ParsedTransaction) (reported page_count : Option ℕ)
    → (verify_extraction ts reported page_count).ok ≡ true
    → (verify_extraction ts reported page_count).needs_review ≡ false
    → Accepted ts reported page_count
unfolding verify_extraction worst_dupe
verify_extraction-Accepted ts reported page_count k h = record {
  some_rows = length-not_empty ts (ground arith);
  not_many = ground arith;
  described = no_blank ts (ground arith);
  rare = worst-bounds ts ts (ground arith);
  counted = λ n e. ground (arith, e);
  dense = λ p e q. ground (arith, e);
}
