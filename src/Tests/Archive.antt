-- ===== src/Tests/Archive.antt =====
-- Uploads against the budget.
use evnt_trden_public.Base.{◌+◌, ◌*◌, ◌≤◌, ◌≡◌, refl, some, [], ◌∷◌, Text, codes, text_eq, arith}
use evnt_trden_public.Storage.Bucket.{Bucket}
use evnt_trden_public.Storage.Quota.{
  UsageTable, current_usage_bytes, would_exceed, ensure_budget, record_bytes,
}
use evnt_trden_public.Storage.Quota.Budget.Race.{
  Writers, total_pending, asked, recorded, Reach, here, next, ensure_budget-Reach,
}

abbrev raw : Text
raw = codes "congress-raw"

abbrev key : Text
key = codes "house/2024/20024001.pdf"

abbrev objects : Bucket
objects = record { key = key; size = 30 } ∷ []

abbrev table : UsageTable
table = record { bucket = raw; total_bytes = 40; object_count = 2 } ∷ []

abbrev first_recorded : Writers
first_recorded = record { usage = record_bytes raw 60 table; pending = 60 ∷ [] }

room : current_usage_bytes raw table + 60 ≤ 100
room = unfold current_usage_bytes text_eq in omega arith

let_through : ensure_budget 100 raw 60 table ≡ some tt
let_through = unfold ensure_budget would_exceed current_usage_bytes text_eq in refl

-- Two writers ask, and the first one records its upload.
both_let_through : Reach 100 raw 1 60 (record { usage = table; pending = [] }) first_recorded
both_let_through =
    next
      (next (next here (asked 60 table [] (omega arith) (omega arith) let_through))
        (asked 60 table (60 ∷ []) (omega arith) (omega arith) let_through))
      (recorded 60 table [] (60 ∷ []))

ensure_budget-Reach_example :
    (current_usage_bytes raw first_recorded.usage + total_pending first_recorded.pending
      ≤ 100 + 1 * 60)
    × ((after : UsageTable) × Reach 100 raw 1 60
          (record { usage = table; pending = [] })
          (record { usage = after; pending = [] })
        × (current_usage_bytes raw after ≡ current_usage_bytes raw table + 2 * 60))
ensure_budget-Reach_example = ensure_budget-Reach 100 raw 1 60 table room both_let_through
