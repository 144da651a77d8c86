-- ===== src/Ingest/CatchUp/Drained.antt =====
-- Draining a stage ends, and how.
use evnt_trden_public.Base.{
  ℕ, zero, suc, ◌+◌, ◌≤◌, ◌<◌, ◌≡◌, inl, inr, refl, Bool-cases, some, List, [], ◌∷◌, leb, ◌==◌,
  arith,
}
use evnt_trden_public.Ingest.CatchUp.{Stage, drain, drain_all, catch_up}

module _ {S : Type 0} (stage : Stage S) where
  -- The rounds of a stage: each but the last leaves less waiting than it found.
  pub data Rounds : S → S → Type 0 where
    empty : (s : S) → stage.count_pending s ≡ 0 → Rounds s s
    stuck :
        (s : S)
        → 0 < stage.count_pending s
        → stage.count_pending s ≤ stage.count_pending (stage.run_batch s).0
        → Rounds s (stage.run_batch s).0
    round :
        (s end : S)
        → stage.count_pending (stage.run_batch s).0 < stage.count_pending s
        → Rounds (stage.run_batch s).0 end
        → Rounds s end

  drain-Rounds :
      (fuel total : ℕ) (s : S)
      → stage.count_pending s < fuel
      → (r : S × ℕ) × (drain stage fuel total s ≡ some r) × Rounds s r.0
  unfolding drain
  drain-Rounds zero total s h = absurd (omega arith)
  drain-Rounds (suc fuel) total s h = elim (Bool-cases (stage.count_pending s == 0)) [
    | inl e ↦ ((s, total), (rw e refl), empty s (ground arith))
    | inr e ↦
        elim (Bool-cases
          (leb (stage.count_pending s) (stage.count_pending (stage.run_batch s).0))) [
            | inl f ↦ (
              ((stage.run_batch s).0, total + (stage.run_batch s).1),
              (rw (e, f) refl),
              stuck s (ground arith) (ground arith),
            )
            | inr f ↦
                let (r, g, k) =
                  drain-Rounds fuel (total + (stage.run_batch s).1) (stage.run_batch s).0
                    (ground arith) in
                (r, (rw (e, f) g), round s r.0 (ground arith) k)
          ]
  ]

  -- Draining a stage comes to an end, whatever its batches do: with nothing left waiting, or after a batch
  -- that did not lessen what waits; each batch before it did.
  pub drain_all-Rounds : (s : S) → (r : S × ℕ) × (drain_all stage s ≡ some r) × Rounds s r.0
  unfolding drain_all
  drain_all-Rounds s = drain-Rounds (suc (stage.count_pending s)) 0 s (omega arith)

-- So does a whole catch-up.
catch_up-ends :
    {S : Type 0} (stages : List (Stage S)) (s : S) → (end : S) × (catch_up stages s ≡ some end)
unfolding catch_up
catch_up-ends [] s = (s, refl)
catch_up-ends (stage ∷ stages) s =
    let (r, e, k) = drain_all-Rounds stage s in
    let (end, f) = catch_up-ends stages r.0 in (end, (rw e f))
