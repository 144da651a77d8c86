-- ===== src/Ops/Rearchive/Keys.antt =====
-- The year is read back from the key that the archiving step gave to a PDF.
use evnt_trden_public.Base.{
  ℕ, ◌≡◌, refl, false, some, [], ◌∷◌, ◌++◌, Text, codes, has_code, split_once, arith, is_digit,
}
use evnt_trden_public.Base.Decimal.{print_ℕ}
use evnt_trden_public.Base.Decimal.Read.{int_of-print_ℕ, has_code-print_ℕ}
use evnt_trden_public.Ingest.HousePdfs.{object_key}
use evnt_trden_public.Ops.Rearchive.{second_part, year_from_object_key}

split_once-at :
    (c : ℕ) (before after : Text)
    → has_code c before ≡ false
    → split_once c (before ++ c ∷ after) ≡ some (before, after)
unfolding split_once has_code
split_once-at c [] after h = ground arith
split_once-at c (d ∷ before) after h = ground (arith, h, split_once-at c before after)

-- A PDF that was archived under a year is fetched again under that year.
pub year_from_object_key-object_key :
    (year : ℕ) (doc_id : Text) → year_from_object_key (object_key year doc_id) ≡ some year
unfolding year_from_object_key second_part object_key
year_from_object_key-object_key year doc_id =
    let tail = doc_id ++ codes ".pdf" in
    let rest = print_ℕ year ++ b'/' ∷ tail in
    let first = split_once-at b'/' (codes "house") rest (unfold has_code in refl) in
    let second =
      split_once-at b'/' (print_ℕ year) tail
        (has_code-print_ℕ b'/' year (unfold is_digit in refl)) in
    rw (first, second) (int_of-print_ℕ year)
