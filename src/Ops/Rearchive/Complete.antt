-- ===== src/Ops/Rearchive/Complete.antt =====
-- After a run each report is in the bucket or among the failures, and the budget is kept.
use evnt_trden_public.Base.{
  ℕ, ◌≡◌, refl, Bool, true, ◌||◌, Option, none, some, List, [], ◌∷◌, All, length, Text, text_eq,
  text_eq_iff, text_eq_refl, one_of, arith, Bool-cases, inl, inr,
}
use evnt_trden_public.Db.Rows.{one_of-append}
use evnt_trden_public.Storage.Bucket.{Bucket, upload}
use evnt_trden_public.Storage.Quota.{Archive, archive_object}
use evnt_trden_public.Storage.Quota.Budget.{
  WithinBudget, archive_object_lem, archive_object-WithinBudget,
}
use evnt_trden_public.Ingest.HousePdfs.{
  Response, served, status_error, broken, Attempt, archived_as, gave_up, upload_outcome, raw_bucket,
}
use evnt_trden_public.Ops.Rearchive.{
  has_object, Entry, Rearchived, store, finish, rearchive_one, rearchive,
}

-- The object is in the bucket, or named as a failure.
abbrev pub accounted : Text → Rearchived → Bool
accounted key s = has_object key s.archive.objects || one_of s.failed key

has_object-upload :
    (key other : Text) (size : ℕ) (bucket : Bucket)
    → has_object other (upload key size bucket) ≡ (has_object other bucket || text_eq key other)
unfolding has_object upload
has_object-upload key other size [] = ground arith
has_object-upload key other size (o ∷ bucket) = ground (
  arith,
  has_object-upload key other size bucket,
  text_eq_iff o.key key,
  text_eq_iff o.key other,
  text_eq_iff key other,
)

-- What an attempt to store an object leaves: it, beside what was there, within the budget.
abbrev Stores : ℕ → Text → Archive → Attempt → Type 0
Stores ceiling key a (gave_up message) = Unit
Stores ceiling key a (archived_as k content b) =
    ((other : Text)
      → has_object other b.objects ≡ (has_object other a.objects || text_eq key other))
    × (WithinBudget ceiling raw_bucket a → WithinBudget ceiling raw_bucket b)

upload_outcome-Stores :
    (ceiling : ℕ) (key content : Text) (a : Archive) (o : Option Archive) (failure : Option Text)
    → archive_object ceiling raw_bucket key (length content) a ≡ o
    → Stores ceiling key a (upload_outcome key content [] o failure)
unfolding upload_outcome
upload_outcome-Stores ceiling key content a none failure e = tt
upload_outcome-Stores ceiling key content a (some b) (some message) e = tt
upload_outcome-Stores ceiling key content a (some b) none e = (
  λ other. ground (
    arith,
    e,
    archive_object_lem ceiling raw_bucket key (length content) a,
    has_object-upload key other (length content) a.objects,
  ),
  archive_object-WithinBudget ceiling raw_bucket key (length content) a b e,
)

-- A step accounts for its object, forgets none, and keeps the budget.
record Steps (ceiling : ℕ) (key : Text) (s next : Rearchived) : Type 0 where
  accounts : accounted key next ≡ true
  keeps : (other : Text) → accounted other s ≡ true → accounted other next ≡ true
  within : WithinBudget ceiling raw_bucket s.archive → WithinBudget ceiling raw_bucket next.archive

module _ (site : Text → Response) (sha256_hex : Text → Text) (upload_error : Text → Option Text)
    (ceiling : ℕ) where
  store-Stores :
      (key : Text) (a : Archive) (r : Response)
      → Stores ceiling key a (store site sha256_hex upload_error ceiling key a r)
  unfolding store
  store-Stores key a (served content) =
      upload_outcome-Stores ceiling key content a _ (upload_error key) refl
  store-Stores key a (status_error code message) = tt
  store-Stores key a (broken message) = tt

  finish-Steps :
      (e : Entry) (t : Attempt) (s : Rearchived)
      → Stores ceiling e.object_key s.archive t
      → Steps ceiling e.object_key s (finish site sha256_hex upload_error ceiling e t s)
  unfolding finish one_of
  finish-Steps e (gave_up message) s h = record {
    accounts =
        ground (
          arith,
          one_of-append s.failed (e.object_key ∷ []) e.object_key,
          text_eq_refl e.object_key,
        );
    keeps = λ other k. ground (arith, k, one_of-append s.failed (e.object_key ∷ []) other);
    within = λ w. w;
  }
  finish-Steps e (archived_as k content b) s (has, within) = record {
    accounts = ground (arith, has e.object_key, text_eq_refl e.object_key);
    keeps = λ other k. ground (arith, k, has other);
    within = within;
  }

  rearchive_one-Steps :
      (e : Entry) (s : Rearchived)
      → Steps ceiling e.object_key s (rearchive_one site sha256_hex upload_error ceiling e s)
  unfolding rearchive_one
  rearchive_one-Steps e s = elim (Bool-cases (has_object e.object_key s.archive.objects)) [
    | inl h ↦ rw h (record { accounts = ground (arith, h); keeps = λ other k. k; within = λ w. w })
    | inr h ↦ rw h (finish-Steps e _ s (store-Stores e.object_key s.archive (site e.url)))
  ]

  rearchive_keeps :
      (es : List Entry) (s : Rearchived) (other : Text)
      → accounted other s ≡ true
      → accounted other (rearchive site sha256_hex upload_error ceiling es s) ≡ true
  unfolding rearchive
  rearchive_keeps [] s other h = h
  rearchive_keeps (e ∷ es) s other h =
      rearchive_keeps es _ other ((rearchive_one-Steps e s).keeps other h)

  -- After a run, whatever the sites serve and whichever uploads fail, each report of the batch is in the
  -- bucket or among the failures; and an archive that was within its ceiling is so still.
  pub rearchive-accounted :
      (es : List Entry) (s : Rearchived)
      → let after = rearchive site sha256_hex upload_error ceiling es s in
        All (λ e. accounted e.object_key after ≡ true) es
        × (WithinBudget ceiling raw_bucket s.archive
            → WithinBudget ceiling raw_bucket after.archive)
  unfolding rearchive
  rearchive-accounted [] s = (tt, λ w. w)
  rearchive-accounted (e ∷ es) s =
      let step = rearchive_one-Steps e s in
      let (all, within) =
        rearchive-accounted es (rearchive_one site sha256_hex upload_error ceiling e s) in
      ((rearchive_keeps es _ e.object_key step.accounts, all), λ w. within (step.within w))
