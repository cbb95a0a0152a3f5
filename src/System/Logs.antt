-- ===== src/System/Logs.antt =====
-- The logs of a job that runs a second time.
use grid_runner.Store.Columns.{takes_chunk}
use grid_runner.Prelude.{true, ℕ, ◌≤◌, ◌≡◌, String, some, List, arith, le→ltb}
use grid_runner.Fallible.{ok}
use grid_runner.Store.{JobRow}
use grid_runner.Store.Rows.{find_row}
use grid_runner.Store.Keys.{HasKeys}
use grid_runner.Store.Statements.{job_has_id}
use grid_runner.Store.History.{Lawful-find_row}
use grid_runner.Store.LogAppends.{quiet_store, not_newer-appended, append_logs-unnoticed}
use grid_runner.Store.Jobs.{append_logs}
use grid_runner.Queue.{Redis}
use grid_runner.World.{World}
use grid_runner.Api.{Codec}
use grid_runner.System.{Run}
use grid_runner.System.Safety.{Run-Keeps}

module _ ⦃R : Redis⦄ where
  -- When the keys of the table hold, and after any run from there, requeues included: an
  -- `AppendLogs` for a job of that table that PostgreSQL does, with a number and a chunk that the
  -- columns take, and numbered at most as high as the last chunk stored before the run, changes no
  -- row and returns no error, as for a chunk that is stored. So of the chunks of a new attempt, which
  -- counts from 1 again, those up to that number are lost.
  pub chunk_of_new_attempt_lost :
      (C : Codec) (w v : World) (id : String) (r : JobRow) (seq : ℕ) (chunk : List ℕ)
      → Run C w v
      → HasKeys w.store.jobs
      → find_row (job_has_id id) w.store.jobs ≡ some r
      → seq ≤ r.log_seq
      → takes_chunk seq chunk ≡ true
      → append_logs id seq chunk (quiet_store v.store.jobs v.store.runners v.store.now)
        ≡ (ok tt, quiet_store v.store.jobs v.store.runners v.store.now)
  chunk_of_new_attempt_lost C w v id r seq chunk run keys found old fit =
      let (u, later, step) = Lawful-find_row id r (Run-Keeps C run).store found in
      append_logs-unnoticed id seq chunk v.store.jobs v.store.runners v.store.now u fit later (
        not_newer-appended id seq chunk v.store.jobs u ((Run-Keeps C run).store.keys keys) later
          (le→ltb u.log_seq seq (omega (arith, step.log_order, old))))
