-- ===== src/Tests/Scan.antt =====
-- Scanned reports: their tiers, and the checks of an extraction.
use evnt_trden_public.Base.{◌≡◌, refl, true, false, none, some, List, [], ◌∷◌, codes}
use evnt_trden_public.Parsers.HousePtr.{ParsedTransaction}
use evnt_trden_public.Parsers.Scan.{clean, risky, unknown, classify_scan_tier}
use evnt_trden_public.Parsers.Scan.Verify.{
  verify_extraction, Accepted, verify_extraction-Accepted, same_row, worst_dupe,
}
use evnt_trden_public.Tests.Reports.{apple}
use evnt_trden_public.Base.Regex.{match_start}
use evnt_trden_public.Base.{split_once}
use evnt_trden_public.Base.{text_eq}
use evnt_trden_public.Base.Float.{float_eq}
use evnt_trden_public.Base.{strip}

tier_clean : classify_scan_tier (codes "house:20016829") ≡ clean
unfolding classify_scan_tier match_start split_once
tier_clean = refl

tier_risky : classify_scan_tier (codes "house:8218645") ≡ risky
unfolding classify_scan_tier match_start split_once
tier_risky = refl

tier_long : classify_scan_tier (codes "house:82186450") ≡ unknown
unfolding classify_scan_tier match_start split_once
tier_long = refl

abbrev rows : List ParsedTransaction
rows = apple ∷ apple ∷ []

three_reviewed : (verify_extraction (apple ∷ rows) none none).needs_review ≡ true
unfolding verify_extraction worst_dupe same_row text_eq float_eq
three_reviewed = refl

two_ok : (verify_extraction rows (some 2) (some 3)).ok ≡ true
unfolding verify_extraction worst_dupe same_row text_eq float_eq strip
two_ok = refl

two_quiet : (verify_extraction rows (some 2) (some 3)).needs_review ≡ false
unfolding verify_extraction worst_dupe same_row text_eq float_eq strip
two_quiet = refl

verify_extraction-Accepted_example : Accepted rows (some 2) (some 3)
verify_extraction-Accepted_example =
    verify_extraction-Accepted rows (some 2) (some 3) two_ok two_quiet
