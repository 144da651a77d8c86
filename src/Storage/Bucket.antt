-- ===== src/Storage/Bucket.antt =====
-- src/congress_collector/storage/r2_storage.py: a bucket as its objects, by key and size.
use evnt_trden_public.Base.{ℕ, ◌+◌, ◌≤◌, List, [], ◌∷◌, length, if◌then◌else◌, Text, text_eq, arith}

pub record StoredObject : Type 0 where
  pub key : Text
  pub size : ℕ

abbrev pub Bucket : Type 0
Bucket = List StoredObject

-- `put_object`: an object of that key is overwritten.
unfoldable pub upload : Text → ℕ → Bucket → Bucket
upload key size [] = record { key = key; size = size } ∷ []
upload key size (o ∷ bucket) =
    if text_eq o.key key
    then record { key = key; size = size } ∷ bucket
    else o ∷ upload key size bucket

unfoldable pub total_size : Bucket → ℕ
total_size [] = 0
total_size (o ∷ bucket) = o.size + total_size bucket

-- `bucket_totals`
unfoldable pub bucket_totals : Bucket → ℕ × ℕ
unfolding total_size
bucket_totals bucket = (total_size bucket, length bucket)

-- An upload adds at most the size of what it uploads.
pub total_size-upload-le :
    (key : Text) (size : ℕ) (bucket : Bucket)
    → total_size (upload key size bucket) ≤ total_size bucket + size
unfolding total_size upload
total_size-upload-le key size [] = ground arith
total_size-upload-le key size (o ∷ bucket) = ground (arith, total_size-upload-le key size bucket)

pub length-upload-le :
    (key : Text) (size : ℕ) (bucket : Bucket) → length (upload key size bucket) ≤ length bucket + 1
unfolding upload
length-upload-le key size [] = ground arith
length-upload-le key size (o ∷ bucket) = ground (arith, length-upload-le key size bucket)
