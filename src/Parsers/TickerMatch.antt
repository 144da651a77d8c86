-- ===== src/Parsers/TickerMatch.antt =====
-- src/congress_collector/parsers/ticker_match.py: which company a ticker or a description means. The score
-- of two names (rapidfuzz's `token_sort_ratio`) is an argument, in millionths of a point.
pub mod Best
use evnt_trden_public.Base.{
  ℕ, ◌*◌, Bool, ◌||◌, Option, none, some, or_else, [], ◌∷◌, List, map, leb, ltb, ◌==◌, not,
  if◌then◌else◌, Text, codes, text_eq, is_upper, is_lower, is_space, lower, upper, strip, join,
  split_words,
}
use evnt_trden_public.Base.Regex.{
  Regex, one, rep, either, edge, ◌⊙◌, any_case, is_code, optional, plus, star, word_any_case, sub,
  sub_start,
}

-- sources/sec_tickers.py
pub record SecCompany : Type 0 where
  pub cik : Text
  pub ticker : Text
  pub title : Text

abbrev pub review_threshold : ℕ
review_threshold = 90 * 1000000

-- `\[[^\]]*\]`
abbrev bracket_re : Regex
bracket_re = one (is_code b'[') ⊙ star (λ c. not (c == b']')) ⊙ one (is_code b']')

-- `^[A-Z]{1,5}\s*-\s*`
abbrev ticker_prefix_re : Regex
ticker_prefix_re = rep is_upper 1 (some 5) ⊙ star is_space ⊙ one (is_code b'-') ⊙ star is_space

any_word : Text → List Text → Regex
any_word t [] = word_any_case t
any_word t (u ∷ us) = either (word_any_case t) (any_word u us)

-- `\b(NYSEARCA|NASDAQ|NYSE|CBOE|OTC)\s*:\s*[A-Z]{1,5}\b`, in any case
exchange_ticker_re : Regex
unfolding any_word
exchange_ticker_re =
    edge
    ⊙ any_word (codes "nysearca") (codes "nasdaq" ∷ codes "nyse" ∷ codes "cboe" ∷ codes "otc" ∷ [])
    ⊙ star is_space
    ⊙ one (is_code b':')
    ⊙ star is_space
    ⊙ rep (λ c. is_upper c || is_lower c) 1 (some 5)
    ⊙ edge

name_noise_re : Regex
unfolding any_word
name_noise_re =
    edge
    ⊙ either
        (any_word (codes "inc") (
          codes "incorporated"
          ∷ codes "corp"
          ∷ codes "corporation"
          ∷ codes "co"
          ∷ codes "company"
          ∷ codes "ltd"
          ∷ codes "plc"
          ∷ codes "llc"
          ∷ codes "lp"
          ∷ []))
        (either
          (word_any_case (codes "class")
            ⊙ plus is_space
            ⊙ one (any_case (λ c. c == b'a' || c == b'b' || c == b'c')))
          (either (word_any_case (codes "common") ⊙ plus is_space ⊙ word_any_case (codes "stock"))
            (word_any_case (codes "ordinary") ⊙ plus is_space ⊙ word_any_case (codes "shares"))))
    ⊙ edge
    ⊙ optional (is_code b'.')

unfoldable pub normalize_ticker : Text → Text
normalize_ticker raw = upper (strip raw)

-- `re.sub(r"[.,:()]", " ", cleaned)`
space_out : ℕ → ℕ
space_out c = if c == b'.' || c == b',' || c == b':' || c == b'(' || c == b')' then b' ' else c

unfoldable pub normalize_company_name : Text → Text
unfolding exchange_ticker_re name_noise_re space_out
normalize_company_name raw =
    let blank = b' ' ∷ [] in
    let cleaned = sub name_noise_re blank (
      sub exchange_ticker_re blank (sub_start ticker_prefix_re blank (sub bracket_re blank raw))) in
    lower (join blank (split_words (map space_out cleaned)))

-- `{c.ticker: c for c in companies}.get(ticker)`: the last company of a ticker counts.
unfoldable pub get_ticker : Text → List SecCompany → Option SecCompany
get_ticker ticker [] = none
get_ticker ticker (c ∷ cs) =
    let later = get_ticker ticker cs in
    if text_eq c.ticker ticker then or_else later (some c) else later

unfoldable pub match_by_ticker : Text → List SecCompany → Option SecCompany
match_by_ticker ticker_raw companies = get_ticker (normalize_ticker ticker_raw) companies

pub record Scored : Type 0 where
  pub score : ℕ
  pub company : SecCompany

-- `extractOne`: of the best scores the first one.
better : Scored → Option Scored → Option Scored
better s none = some s
better s (some t) = if leb t.score s.score then some s else some t

unfoldable pub best_of : List Scored → Option Scored
unfolding better
best_of [] = none
best_of (s ∷ ss) = better s (best_of ss)

unfoldable pub above_threshold : Option Scored → Option SecCompany
above_threshold none = none
above_threshold (some s) = if ltb s.score review_threshold then none else some s.company

module _ (token_sort_ratio : Text → Text → ℕ) where
  unfoldable pub score_of : Text → SecCompany → Scored
  score_of query c = record {
    score = token_sort_ratio query (normalize_company_name c.title);
    company = c;
  }

  -- The company of the `MatchResult`.
  unfoldable pub match_by_description : Text → List SecCompany → Option SecCompany
  unfolding above_threshold best_of score_of
  match_by_description description candidates =
      above_threshold (best_of (map (score_of (normalize_company_name description)) candidates))
