-- ===== src/Parsers/PoliticianMatch.antt =====
-- src/congress_collector/parsers/politician_match.py: which politician a filer's name means. The score of
-- two names (rapidfuzz's `token_sort_ratio`) is an argument, in millionths of a point.
pub mod Confident
use evnt_trden_public.Base.{
  ℕ, ◌+◌, ◌-◌, ◌*◌, Bool, ◌&&◌, ◌||◌, not, Option, none, some, List, [], ◌∷◌, map, keep, ltb, leb,
  ◌==◌, if◌then◌else◌, Text, codes, one_of, lower, join, split_words,
}
use evnt_trden_public.Base.Sort.{sorted}

abbrev noise_words : List Text
noise_words =
    codes "hon"
    ∷ codes "honorable"
    ∷ codes "mr"
    ∷ codes "mrs"
    ∷ codes "ms"
    ∷ codes "dr"
    ∷ codes "jr"
    ∷ codes "sr"
    ∷ codes "ii"
    ∷ codes "iii"
    ∷ codes "iv"
    ∷ []

abbrev pub point : ℕ
point = 1000000

abbrev pub review_threshold : ℕ
review_threshold = 80 * point

abbrev pub high_confidence : ℕ
high_confidence = 92 * point

abbrev pub tie_margin : ℕ
tie_margin = 5 * point

-- `re.sub(r"[.,]", " ", raw)`
space_out : ℕ → ℕ
space_out c = if c == b'.' || c == b',' then b' ' else c

unfoldable pub normalize_name : Text → Text
unfolding space_out
normalize_name raw =
    join (b' ' ∷ [])
      (keep (λ w. not (one_of noise_words w)) (split_words (map space_out (lower raw))))

pub record Candidate : Type 0 where
  pub bioguide_id : Text
  pub full_name : Text

pub data Method : Type 0 where
  fuzzy unmatched ambiguous : Method

pub record MatchResult : Type 0 where
  pub bioguide_id : Option Text
  pub score : ℕ
  pub method : Method

pub record Scored : Type 0 where
  pub score : ℕ
  pub candidate : Candidate

-- `sorted(…, reverse=True)` keeps the order of equal scores.
unfoldable pub score_ge : Scored → Scored → Bool
score_ge a b = leb b.score a.score

runner_up : List Scored → ℕ
runner_up [] = 0
runner_up (s ∷ rest) = s.score

unfoldable pub decide : List Scored → MatchResult
unfolding runner_up
decide [] = record { bioguide_id = none; score = 0; method = unmatched }
decide (top ∷ rest) =
    if ltb top.score review_threshold
    then record { bioguide_id = none; score = top.score; method = unmatched }
    else if ltb top.score high_confidence && ltb (top.score - runner_up rest) tie_margin
    then record { bioguide_id = none; score = top.score; method = ambiguous }
    else record { bioguide_id = some top.candidate.bioguide_id; score = top.score; method = fuzzy }

module _ (token_sort_ratio : Text → Text → ℕ) where
  unfoldable pub score_of : Text → Candidate → Scored
  score_of query c = record {
    score = token_sort_ratio query (normalize_name c.full_name);
    candidate = c;
  }

  unfoldable pub best_match : Text → List Candidate → MatchResult
  unfolding score_of decide
  best_match filer_name candidates =
      decide (sorted score_ge (map (score_of (normalize_name filer_name)) candidates))
