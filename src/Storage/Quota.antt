-- ===== src/Storage/Quota.antt =====
-- src/congress_collector/storage/quota.py: the budget of a bucket, kept as a running total in
-- `storage_usage`. The ceiling comes from the environment and is an argument.
pub mod Budget
use evnt_trden_public.Base.{
  ℕ, ◌+◌, ◌*◌, ◌^◌, Bool, Option, none, some, List, [], ◌∷◌, ltb, leb, if◌then◌else◌, Text, text_eq,
  value_or, map_option, ◌>>=◌, ◌>>◌,
}
use evnt_trden_public.Storage.Bucket.{Bucket, upload, bucket_totals}

pub record StorageUsage : Type 0 where
  pub bucket : Text
  pub total_bytes : ℕ
  pub object_count : ℕ

abbrev pub UsageTable : Type 0
UsageTable = List StorageUsage

abbrev pub default_ceiling_bytes : ℕ
default_ceiling_bytes = 9 * 1024 ^ 3

unfoldable pub would_exceed : ℕ → ℕ → ℕ → Bool
would_exceed current_bytes additional_bytes ceiling = ltb ceiling (current_bytes + additional_bytes)

unfoldable pub get_usage : Text → UsageTable → Option StorageUsage
get_usage bucket [] = none
get_usage bucket (u ∷ us) = if text_eq u.bucket bucket then some u else get_usage bucket us

unfoldable pub current_usage_bytes : Text → UsageTable → ℕ
unfolding get_usage
current_usage_bytes bucket table =
    value_or 0 (map_option (λ (u : StorageUsage). u.total_bytes) (get_usage bucket table))

-- `none` is the `StorageBudgetExceededError`.
unfoldable pub ensure_budget : ℕ → Text → ℕ → UsageTable → Option (Unit {0})
unfolding would_exceed
ensure_budget ceiling bucket additional_bytes table =
    if would_exceed (current_usage_bytes bucket table) additional_bytes ceiling
    then none
    else some tt

-- `INSERT … ON CONFLICT (bucket) DO UPDATE`, which adds to the row that is there.
unfoldable pub record_bytes : Text → ℕ → UsageTable → UsageTable
record_bytes bucket additional_bytes [] =
    record { bucket = bucket; total_bytes = additional_bytes; object_count = 1 } ∷ []
record_bytes bucket additional_bytes (u ∷ us) =
    if text_eq u.bucket bucket
    then record u {
      total_bytes = u.total_bytes + additional_bytes;
      object_count = u.object_count + 1;
    }
      ∷ us
    else u ∷ record_bytes bucket additional_bytes us

-- The same statement with what the bucket holds in place of the running total.
unfoldable pub store_totals : Text → ℕ → ℕ → UsageTable → UsageTable
store_totals bucket total count [] =
    record { bucket = bucket; total_bytes = total; object_count = count } ∷ []
store_totals bucket total count (u ∷ us) =
    if text_eq u.bucket bucket
    then record u { total_bytes = total; object_count = count } ∷ us
    else u ∷ store_totals bucket total count us

unfoldable pub reconcile : Text → Bucket → UsageTable → UsageTable × ℕ × ℕ
unfolding store_totals
reconcile bucket objects table =
    let (total, count) = bucket_totals objects in
    (store_totals bucket total count table, total, count)

-- A bucket and its running total.
pub record Archive : Type 0 where
  pub objects : Bucket
  pub usage : UsageTable

-- The three calls by which the archiving steps write one object, in their order; `none` is the
-- exception, after which nothing is written.
unfoldable pub archive_object : ℕ → Text → Text → ℕ → Archive → Option Archive
archive_object ceiling bucket key size a = do
  ensure_budget ceiling bucket size a.usage
  some (record { objects = upload key size a.objects; usage = record_bytes bucket size a.usage })

-- `check_bucket` of ops/check_storage_quota.py, and the test that its `main` makes of the fraction: at
-- least 0.8 of the ceiling.
unfoldable pub should_warn : ℕ → ℕ → Bool
should_warn ceiling total_bytes = leb (4 * ceiling) (5 * total_bytes)
