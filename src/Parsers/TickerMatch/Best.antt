-- ===== src/Parsers/TickerMatch/Best.antt =====
-- A description is matched only to a company with the best score, of at least 90.
use evnt_trden_public.Base.{
  ℕ, ◌≤◌, ◌≡◌, refl, sym, ◌⊎◌, true, Bool-cases, of_some, Option, none, some, inl, inr, List, [],
  ◌∷◌, map, All, leb, ltb, Text, arith,
}
use evnt_trden_public.Parsers.TickerMatch.{
  SecCompany, Scored, better, best_of, above_threshold, score_of, match_by_description,
  normalize_company_name, review_threshold,
}

-- The best one of a list is in it, and no other is better.
pub data IsFirstBest (s : Scored) : List Scored → Type 0 where
  first : (ss : List Scored) → All (λ t. t.score ≤ s.score) ss → IsFirstBest s (s ∷ ss)
  later :
      (t : Scored) (ss : List Scored)
      → ltb t.score s.score ≡ true
      → IsFirstBest s ss
      → IsFirstBest s (t ∷ ss)

not_some : (c : SecCompany) → none ≡ some c → ⊥
not_some c h = cc

better-cases :
    (t s : Scored) (o : Option Scored)
    → better t o ≡ some s
    → ((t ≡ s) × ((u : Scored) → o ≡ some u → u.score ≤ t.score))
      ⊎ ((o ≡ some s) × (ltb t.score s.score ≡ true))
unfolding better
better-cases t s none h = inl (of_some h, λ u e. absurd cc)
better-cases t s (some u) h = elim (Bool-cases (leb u.score t.score)) [
  | inl e ↦ inl (of_some (rw e at h), λ v k. rw (sym (of_some k)) (ground arith))
  | inr e ↦ inr ((rw e at h), rw (sym (of_some (rw e at h))) (ground arith))
]

better-first :
    (n : ℕ) (s : Scored) (o : Option Scored)
    → ((u : Scored) → better s o ≡ some u → u.score ≤ n)
    → s.score ≤ n
unfolding better
better-first n s none h = h s refl
better-first n s (some t) h = elim (Bool-cases (leb t.score s.score)) [
  | inl e ↦ h s (rw e refl)
  | inr e ↦ ground (arith, h t (rw e refl))
]

better-rest :
    (n : ℕ) (s : Scored) (o : Option Scored)
    → ((u : Scored) → better s o ≡ some u → u.score ≤ n)
    → (u : Scored) → o ≡ some u
    → u.score ≤ n
unfolding better
better-rest n s none h u k = absurd cc
better-rest n s (some t) h u k = elim (Bool-cases (leb t.score s.score)) [
  | inl e ↦ rw (sym (of_some k)) (ground (arith, h s (rw e refl)))
  | inr e ↦ h u (rw e k)
]

above_threshold-some :
    (o : Option Scored) (c : SecCompany)
    → above_threshold o ≡ some c
    → (s : Scored) × (o ≡ some s) × (s.company ≡ c) × (review_threshold ≤ s.score)
unfolding above_threshold
above_threshold-some none c h = absurd cc
above_threshold-some (some s) c h = elim (Bool-cases (ltb s.score review_threshold)) [
  | inl e ↦ absurd (not_some c (rw e at h))
  | inr e ↦ (s, refl, of_some (rw e at h), ground arith)
]

-- Every score is at most that of the best one.
best_of-All :
    (n : ℕ) (ss : List Scored)
    → ((u : Scored) → best_of ss ≡ some u → u.score ≤ n)
    → All (λ u. u.score ≤ n) ss
unfolding best_of
best_of-All n [] h = tt
best_of-All n (s ∷ ss) h =
    (better-first n s (best_of ss) h, best_of-All n ss (better-rest n s (best_of ss) h))

best_of-IsFirstBest : (ss : List Scored) (s : Scored) → best_of ss ≡ some s → IsFirstBest s ss
unfolding best_of
best_of-IsFirstBest [] s h = absurd cc
best_of-IsFirstBest (t ∷ ss) s h = elim (better-cases t s (best_of ss) h) [
  | inl (e, k) ↦ rw (sym e) (first ss (best_of-All t.score ss k))
  | inr (e, k) ↦ later t ss k (best_of-IsFirstBest ss s e)
]

-- A company to which a description is matched is the first one with the best score of all, and that score
-- is at least 90.
pub match_by_description-IsFirstBest :
    (token_sort_ratio : Text → Text → ℕ) (description : Text) (companies : List SecCompany)
    (c : SecCompany)
    → match_by_description token_sort_ratio description companies ≡ some c
    → (s : Scored) × (s.company ≡ c)
      × (review_threshold ≤ s.score)
      × IsFirstBest s
          (map (score_of token_sort_ratio (normalize_company_name description)) companies)
unfolding match_by_description
match_by_description-IsFirstBest ratio description companies c h =
    let scored = map (score_of ratio (normalize_company_name description)) companies in
    let (s, e, f, k) = above_threshold-some (best_of scored) c h in
    (s, f, k, best_of-IsFirstBest scored s e)
