-- ===== src/Parsers/PoliticianMatch/Confident.antt =====
-- A name is matched only to the best candidate, and only if it is good and stands clear of the others.
use mathlib.Core.List.{Perm}
use mathlib.Core.List.Perm
use evnt_trden_public.Base.{ℕ, ◌+◌, ◌≤◌, ◌≡◌, List, ◌∷◌, All, Text, ◌⊎◌}
use evnt_trden_public.Parsers.PoliticianMatch.{Scored}

abbrev Below : ℕ → List Scored → Type 0
Below n = All (λ s. s.score ≤ n)

-- A politician who may be assigned: his is one of the scores, none of the other scores is higher, it is
-- at least 80, and either at least 92 or five points or more above each other score.
pub record IsConfident (scored : List Scored) (id : Text) : Type 0 where
  pub winner : Scored
  pub others : List Scored
  pub all : Perm scored (winner ∷ others)
  pub named : winner.candidate.bioguide_id ≡ id
  pub best : All (λ s. s.score ≤ winner.score) others
  pub good : 80 ≤ winner.score
  pub clear : (92 ≤ winner.score) ⊎ All (λ s. s.score + 5 ≤ winner.score) others
