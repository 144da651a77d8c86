-- ===== src/Tests/Drain.antt =====
-- Draining the archive stage: a batch archives one of two filings, and the next one nothing.
use evnt_trden_public.Base.{ℕ, ◌≡◌, some}
use evnt_trden_public.Db.{Db}
use evnt_trden_public.Storage.Quota.{Archive}
use evnt_trden_public.Ingest.CatchUp.{Stage, drain_all, archive_stage}
use evnt_trden_public.Ingest.CatchUp.Drained.{Rounds, drain_all-Rounds}
use evnt_trden_public.Tests.Pdfs.{site, digest, uploads, archive, db}

abbrev stage : Stage (Archive × Db)
stage = archive_stage site digest uploads 100 7 2024 200

drain_all-Rounds_example :
    (r : (Archive × Db) × ℕ) × (drain_all stage (archive, db) ≡ some r)
    × Rounds stage (archive, db) r.0
drain_all-Rounds_example = drain_all-Rounds stage (archive, db)

abbrev drained : ℕ
drained = (drain_all-Rounds stage (archive, db)).0.1
