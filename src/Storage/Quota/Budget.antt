-- ===== src/Storage/Quota/Budget.antt =====
-- The guarantee of the budget, for writers one after the other; Race has those at once.
pub mod Race
use evnt_trden_public.Base.{
  ℕ, ◌+◌, ◌≤◌, ◌≡◌, none, some, [], ◌∷◌, Text, text_eq, text_eq_refl, if◌then◌else◌, text_eq_iff,
  arith, length, leb,
}
use evnt_trden_public.Storage.Bucket.{
  Bucket, upload, total_size, total_size-upload-le, bucket_totals,
}
use evnt_trden_public.Storage.Quota.{
  UsageTable, current_usage_bytes, ensure_budget, record_bytes, reconcile, store_totals, Archive,
  archive_object,
}

-- The running total after `record_bytes`, of this bucket and of each other one.
pub current_usage_bytes-record_bytes :
    (bucket other : Text) (size : ℕ) (table : UsageTable)
    → current_usage_bytes other (record_bytes bucket size table) ≡ (
        if text_eq bucket other
        then current_usage_bytes bucket table + size
        else current_usage_bytes other table)
unfolding current_usage_bytes record_bytes
current_usage_bytes-record_bytes bucket other size [] = ground arith
current_usage_bytes-record_bytes bucket other size (u ∷ us) = ground (
  arith,
  text_eq_iff u.bucket bucket,
  text_eq_iff u.bucket other,
  text_eq_iff bucket other,
  current_usage_bytes-record_bytes bucket other size us,
)

current_usage_bytes-store_totals :
    (bucket other : Text) (total count : ℕ) (table : UsageTable)
    → current_usage_bytes other (store_totals bucket total count table)
      ≡ (if text_eq bucket other then total else current_usage_bytes other table)
unfolding current_usage_bytes store_totals
current_usage_bytes-store_totals bucket other total count [] = ground arith
current_usage_bytes-store_totals bucket other total count (u ∷ us) = ground (
  arith,
  text_eq_iff u.bucket bucket,
  text_eq_iff u.bucket other,
  text_eq_iff bucket other,
  current_usage_bytes-store_totals bucket other total count us,
)

-- `reconcile` makes the running total of a bucket what the bucket holds, whatever it was, and leaves
-- that of every other bucket as it is.
current_usage_bytes-reconcile :
    (bucket other : Text) (objects : Bucket) (table : UsageTable)
    → current_usage_bytes other (reconcile bucket objects table).0
      ≡ (if text_eq bucket other then total_size objects else current_usage_bytes other table)
unfolding reconcile bucket_totals
current_usage_bytes-reconcile bucket other objects table =
    current_usage_bytes-store_totals bucket other (total_size objects) (length objects) table

-- The archive is within the ceiling: by its running total, which is never below what it holds.
pub record WithinBudget (ceiling : ℕ) (bucket : Text) (a : Archive) : Type 0 where
  pub held : total_size a.objects ≤ current_usage_bytes bucket a.usage
  pub recorded : current_usage_bytes bucket a.usage ≤ ceiling

-- An object is written just if the running total has room for it.
pub archive_object_lem :
    (ceiling : ℕ) (bucket key : Text) (size : ℕ) (a : Archive)
    → archive_object ceiling bucket key size a ≡ (
        if leb (current_usage_bytes bucket a.usage + size) ceiling
        then some (record {
          objects = upload key size a.objects;
          usage = record_bytes bucket size a.usage;
        })
        else none)
unfolding archive_object ensure_budget
archive_object_lem ceiling bucket key size a = ground arith

-- Writing an object keeps the archive within the ceiling.
pub archive_object-WithinBudget :
    (ceiling : ℕ) (bucket key : Text) (size : ℕ) (a b : Archive)
    → archive_object ceiling bucket key size a ≡ some b
    → WithinBudget ceiling bucket a
    → WithinBudget ceiling bucket b
archive_object-WithinBudget ceiling bucket key size a b h w = ground (
  arith,
  archive_object_lem ceiling bucket key size a,
  total_size-upload-le key size a.objects,
  current_usage_bytes-record_bytes bucket bucket size a.usage,
  text_eq_refl bucket,
)
