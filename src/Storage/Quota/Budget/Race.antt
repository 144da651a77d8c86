-- ===== src/Storage/Quota/Budget/Race.antt =====
-- Writers that archive at once: each asks `ensure_budget` before its upload and calls `record_bytes`
-- after it, and the others may do the same in between.
use evnt_trden_public.Base.{
  ℕ, zero, suc, ◌+◌, ◌*◌, ◌≤◌, ◌≡◌, refl, some, List, [], ◌∷◌, ◌++◌, length, All, All-append,
  All-split, Text, text_eq_refl, arith,
}
use evnt_trden_public.Storage.Quota.{
  UsageTable, current_usage_bytes, would_exceed, ensure_budget, record_bytes,
}
use evnt_trden_public.Storage.Quota.Budget.{current_usage_bytes-record_bytes}

-- The table, and the sizes of the uploads that were let through and are not recorded yet.
pub record Writers : Type 0 where
  pub usage : UsageTable
  pub pending : List ℕ

abbrev pub total_pending : List ℕ → ℕ
total_pending [] = 0
total_pending (size ∷ sizes) = size + total_pending sizes

total_pending-insert :
    (size : ℕ) (before after : List ℕ)
    → total_pending (before ++ size ∷ after) ≡ size + total_pending (before ++ after)
total_pending-insert size [] after = refl
total_pending-insert size (b ∷ before) after = omega (arith, total_pending-insert size before after)

total_pending-le :
    (n largest : ℕ) (sizes : List ℕ)
    → length sizes ≤ n
    → All (λ size. size ≤ largest) sizes
    → total_pending sizes ≤ n * largest
total_pending-le n largest [] h k = omega arith
total_pending-le zero largest (size ∷ sizes) h k = absurd (omega arith)
total_pending-le (suc n) largest (size ∷ sizes) h k =
    grind (arith, total_pending-le n largest sizes (omega arith) k.1)

-- A writer and `others` more are at work on the bucket, with uploads of at most `largest` bytes.
module _ (ceiling : ℕ) (bucket : Text) (others largest : ℕ) where
  -- A writer asks and is let through, or records its upload.
  pub data Step : Writers → Writers → Type 0 where
    asked :
        (size : ℕ) (usage : UsageTable) (pending : List ℕ)
        → length pending ≤ others
        → size ≤ largest
        → ensure_budget ceiling bucket size usage ≡ some tt
        → Step
            (record { usage = usage; pending = pending })
            (record { usage = usage; pending = size ∷ pending })
    recorded :
        (size : ℕ) (usage : UsageTable) (before after : List ℕ)
        → Step
            (record { usage = usage; pending = before ++ size ∷ after })
            (record { usage = record_bytes bucket size usage; pending = before ++ after })

  pub data Reach (s : Writers) : Writers → Type 0 where
    here : Reach s s
    next : {t u : Writers} → Reach s t → Step t u → Reach s u

  abbrev repeat_size : ℕ → List ℕ
  repeat_size zero = []
  repeat_size (suc n) = largest ∷ repeat_size n

  length-repeat_size : (n : ℕ) → length (repeat_size n) ≡ n
  length-repeat_size zero = refl
  length-repeat_size (suc n) = omega (arith, length-repeat_size n)

  -- The running total passes the ceiling by no more than the uploads of the other writers.
  record IsBounded (s : Writers) : Type 0 where
    small : All (λ size. size ≤ largest) s.pending
    bounded :
        current_usage_bytes bucket s.usage + total_pending s.pending ≤ ceiling + others * largest

  recorded_lem :
      (size : ℕ) (usage : UsageTable)
      → current_usage_bytes bucket (record_bytes bucket size usage)
        ≡ current_usage_bytes bucket usage + size
  recorded_lem size usage =
      ground (arith, current_usage_bytes-record_bytes bucket bucket size usage, text_eq_refl bucket)

  let_through :
      (size : ℕ) (usage : UsageTable)
      → ensure_budget ceiling bucket size usage ≡ some tt
      → current_usage_bytes bucket usage + size ≤ ceiling
  unfolding ensure_budget would_exceed
  let_through size usage h = ground arith

  has_room :
      (usage : UsageTable)
      → current_usage_bytes bucket usage + largest ≤ ceiling
      → ensure_budget ceiling bucket largest usage ≡ some tt
  unfolding ensure_budget would_exceed
  has_room usage h = ground arith

  Step-IsBounded : {s t : Writers} → Step s t → IsBounded s → IsBounded t
  Step-IsBounded (asked size usage pending few fits ok) b =
      let room = let_through size usage ok in
      let rest = total_pending-le others largest pending few b.small in
      record { small = (fits, b.small); bounded = omega arith }
  Step-IsBounded (recorded size usage before after) b =
      let parts = All-split (λ n. n ≤ largest) before (size ∷ after) b.small in
      record {
        small = All-append (λ n. n ≤ largest) before after parts.0 parts.1.1;
        bounded =
            omega
              (arith, recorded_lem size usage, total_pending-insert size before after, b.bounded);
      }

  Reach-IsBounded : {s t : Writers} → IsBounded s → Reach s t → IsBounded t
  Reach-IsBounded b here = b
  Reach-IsBounded b (next r step) = Step-IsBounded step (Reach-IsBounded b r)

  -- All writers ask first, with uploads of the largest size.
  asked_together :
      (n : ℕ) (usage : UsageTable)
      → n ≤ suc others
      → ensure_budget ceiling bucket largest usage ≡ some tt
      → Reach
          (record { usage = usage; pending = [] })
          (record { usage = usage; pending = repeat_size n })
  asked_together zero usage h ok = here
  asked_together (suc n) usage h ok = next (asked_together n usage (omega arith) ok) (
      asked largest usage (repeat_size n) (rw (length-repeat_size n) (omega arith)) (omega arith)
        ok)

  -- Then they record them, one after the other.
  recorded_together :
      (n : ℕ) (start : Writers) (usage : UsageTable)
      → Reach start (record { usage = usage; pending = repeat_size n })
      → (after : UsageTable) × Reach start (record { usage = after; pending = [] })
        × (current_usage_bytes bucket after ≡ current_usage_bytes bucket usage + n * largest)
  recorded_together zero start usage r = (usage, r, omega arith)
  recorded_together (suc n) start usage r =
      let (after, r', e) =
        recorded_together n start (record_bytes bucket largest usage)
          (next r (recorded largest usage [] (repeat_size n))) in
      (after, r', grind (arith, e, recorded_lem largest usage))

  -- Writers at work at once on a bucket that starts with room for one upload of the largest size: however
  -- their questions and records interleave, the running total and the uploads that are let through and not
  -- recorded yet pass the ceiling together by at most one such upload for each writer but one; and it can
  -- happen that all are let through, so that the total ends higher by one such upload for each of them.
  pub ensure_budget-Reach :
      (table : UsageTable) {s : Writers}
      → current_usage_bytes bucket table + largest ≤ ceiling
      → Reach (record { usage = table; pending = [] }) s
      → (current_usage_bytes bucket s.usage + total_pending s.pending ≤ ceiling + others * largest)
        × ((after : UsageTable) × Reach
              (record { usage = table; pending = [] })
              (record { usage = after; pending = [] })
            × (current_usage_bytes bucket after
                ≡ current_usage_bytes bucket table + suc others * largest))
  ensure_budget-Reach table room r = (
    (Reach-IsBounded start r).bounded,
    recorded_together (suc others) (record { usage = table; pending = [] }) table
        (asked_together (suc others) table (omega arith) (has_room table room)),
  )
    where
      start : IsBounded (record { usage = table; pending = [] })
      start = record { small = tt; bounded = omega arith }
