-- ===== src/Parsers/Scan.antt =====
-- src/congress_collector/parsers/scan_classification.py: the tier of a scanned report by its document id.
pub mod Verify
use evnt_trden_public.Base.{
  Bool, ◌||◌, Option, none, some, [], ◌∷◌, ◌==◌, if◌then◌else◌, Text, is_digit, split_once,
}
use evnt_trden_public.Base.Regex.{Regex, one, rep, ends, ◌⊙◌, is_code, match_start}
use evnt_trden_public.Parsers.HousePtr.Patterns.{is_match}

pub data ScanTier : Type 0 where
  clean risky unknown : ScanTier

-- `^20\d{6}$`, `^[89]\d{6}$`
abbrev pub clean_id_re : Regex
clean_id_re = one (is_code b'2') ⊙ one (is_code b'0') ⊙ rep is_digit 6 (some 6) ⊙ ends

abbrev pub risky_id_re : Regex
risky_id_re = one (λ c. c == b'8' || c == b'9') ⊙ rep is_digit 6 (some 6) ⊙ ends

-- `filing_id.split(":", 1)[-1]`
after_colon : Text → Option (Text × Text) → Text
after_colon whole none = whole
after_colon whole (some (before, after)) = after

tier_of : Text → ScanTier
tier_of doc_id =
    if is_match (match_start clean_id_re doc_id)
    then clean
    else if is_match (match_start risky_id_re doc_id)
    then risky
    else unknown

unfoldable pub classify_scan_tier : Text → ScanTier
unfolding after_colon tier_of
classify_scan_tier filing_id = tier_of (after_colon filing_id (split_once b':' filing_id))
