-- ===== src/Sources/House.antt =====
-- src/congress_collector/sources/house.py: the entries of the House Clerk's index.
use evnt_trden_public.Base.{
  ℕ, Option, [], ◌∷◌, ◌++◌, if◌then◌else◌, Text, codes, text_eq, join, keep, not, is_empty,
}
use evnt_trden_public.Base.Decimal.{print_ℕ}
use evnt_trden_public.Base.Calendar.{Date}

pub record HouseIndexEntry : Type 0 where
  pub doc_id : Text
  pub last : Text
  pub first : Text
  pub prefix : Text
  pub suffix : Text
  pub filing_type : Text
  pub state_dst : Text
  pub year : ℕ
  pub filing_date : Option Date

unfoldable pub filing_id_for : Text → Text
filing_id_for doc_id = codes "house:" ++ doc_id

unfoldable pub filer_name_for : HouseIndexEntry → Text
filer_name_for entry =
    join (b' ' ∷ [])
      (keep (λ p. not (is_empty p)) (entry.prefix ∷ entry.first ∷ entry.last ∷ entry.suffix ∷ []))

ptr_pdf_url : Text
ptr_pdf_url = codes "https://disclosures-clerk.house.gov/public_disc/ptr-pdfs/"

other_pdf_url : Text
other_pdf_url = codes "https://disclosures-clerk.house.gov/public_disc/financial-pdfs/"

-- Periodic transaction reports lie under a path of their own.
unfoldable pub pdf_url_for : Text → Text → ℕ → Text
unfolding ptr_pdf_url other_pdf_url
pdf_url_for doc_id filing_type year =
    (if text_eq filing_type (codes "P") then ptr_pdf_url else other_pdf_url)
    ++ (print_ℕ year ++ (b'/' ∷ (doc_id ++ codes ".pdf")))
