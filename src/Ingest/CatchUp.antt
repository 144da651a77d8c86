-- ===== src/Ingest/CatchUp.antt =====
-- src/congress_collector/ingest/catchup_house_backlog.py: a stage is repeated until nothing waits or a
-- batch makes no progress. What a stage does, and to what, is an argument.
pub mod Drained
use evnt_trden_public.Base.{
  ℕ, zero, suc, ◌+◌, Bool, Option, none, some, ◌>>=◌, List, [], ◌∷◌, leb, ◌==◌, if◌then◌else◌,
  length,
}
use evnt_trden_public.Db.{Db}
use evnt_trden_public.Storage.Quota.{Archive}
use evnt_trden_public.Base.{Text}
use evnt_trden_public.Ingest.HousePdfs.{Response, archive_pending_house_pdfs, count_pending}

-- A stage on a state: how much waits, and one batch with the number that it counts.
pub record Stage (S : Type 0) : Type 0 where
  pub count_pending : S → ℕ
  pub run_batch : S → S × ℕ

module _ {S : Type 0} (stage : Stage S) where
  -- `_drain`, with its running total; `none` says that the fuel is gone.
  unfoldable pub drain : ℕ → ℕ → S → Option (S × ℕ)
  drain zero total s = none
  drain (suc fuel) total s =
      let (next, count) = stage.run_batch s in
      let rest = drain fuel (total + count) next in
      if stage.count_pending s == 0
      then some (s, total)
      else if leb (stage.count_pending s) (stage.count_pending next)
      then some (next, total + count)
      else rest

  -- A round follows each fall of the number that waits, so this many are enough.
  unfoldable pub drain_all : S → Option (S × ℕ)
  unfolding drain
  drain_all s = drain (suc (stage.count_pending s)) 0 s

-- `catch_up`: the stages one after the other.
unfoldable pub catch_up : {S : Type 0} → List (Stage S) → S → Option S
unfolding drain_all
catch_up [] s = some s
catch_up (stage ∷ stages) s = drain_all stage s >>= λ r. catch_up stages r.0

-- The first stage, with the site, the digest, the failures of uploads and the clock fixed for the run.
unfoldable pub archive_stage :
    (Text → Response) → (Text → Text) → (Text → Option Text) → ℕ → ℕ → ℕ → ℕ → Stage (Archive × Db)
archive_stage site sha256_hex upload_error ceiling now this_year batch_size = record {
  count_pending = λ s. count_pending s.1;
  run_batch = λ s.
      let r =
        archive_pending_house_pdfs site sha256_hex upload_error ceiling now this_year batch_size s.0
          s.1 in
      ((r.archive, r.db), r.archived);
}
