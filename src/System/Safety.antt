-- ===== src/System/Safety.antt =====
-- What holds of the tables after any run of the control plane, whatever requests arrive, in any
-- order, and however PostgreSQL and Redis answer.
use grid_runner.Prelude.{ℕ, ◌≤◌, ◌≡◌, String, true, some, List, ◌++◌}
use grid_runner.Models.{terminal}
use grid_runner.Models.States.{◌⟶*◌}
use grid_runner.Store.{JobRow, RunnerRow}
use grid_runner.Store.Rows.{find_row}
use grid_runner.Store.Steps.{SameIdentity, RunnerLife}
use grid_runner.Store.Keys.{HasKeys}
use grid_runner.Store.Statements.{job_has_id, runner_has_id}
use grid_runner.Store.Lawful.{Lawful-preorder}
use grid_runner.Store.History.{IsSound, Lawful-IsSound, Lawful-find_row, Lawful-find_runner}
use grid_runner.Queue.{Redis}
use grid_runner.World.{World}
use grid_runner.World.Lawful.{Keeps, Keeps-preorder}
use grid_runner.Service.Lawful.{Keeps-poll_queue, Keeps-reap, Keeps-start_up}
use grid_runner.Api.{Codec}
use grid_runner.Api.Lawful.{
  Keeps-with_runner_auth, Keeps-handle_cancel_job, Keeps-handle_job_start, Keeps-handle_job_logs,
  Keeps-handle_job_result, Keeps-handle_register, Keeps-handle_heartbeat, Keeps-handle_poll_job,
  Keeps-handle_webhook,
}
use grid_runner.System.{
  Turn, webhook, register, beat, poll, start, log, result, cancel, schedule_round, reap_tick,
  scheduler_start, passes, Run, here, next,
}

module _ ⦃R : Redis⦄ where
  Turn-Keeps : (C : Codec) {w v : World} → Turn C w v → Keeps w v
  Turn-Keeps C {w} (webhook secret id r) = (Keeps-handle_webhook C secret id r).at w
  Turn-Keeps C {w} (register secret id token r) = (Keeps-handle_register C secret id token r).at w
  Turn-Keeps C {w} (beat r) = (Keeps-with_runner_auth C _ r (Keeps-handle_heartbeat C r)).at w
  Turn-Keeps C {w} (poll clone_token gone r) =
      (Keeps-with_runner_auth C _ r (Keeps-handle_poll_job clone_token gone r)).at w
  Turn-Keeps C {w} (start r) = (Keeps-with_runner_auth C _ r (Keeps-handle_job_start r)).at w
  Turn-Keeps C {w} (log r) = (Keeps-with_runner_auth C _ r (Keeps-handle_job_logs r)).at w
  Turn-Keeps C {w} (result r) = (Keeps-with_runner_auth C _ r (Keeps-handle_job_result C r)).at w
  Turn-Keeps C {w} (cancel r) = (Keeps-handle_cancel_job r).at w
  Turn-Keeps C {w} (schedule_round heartbeat) = (Keeps-poll_queue heartbeat).at w
  Turn-Keeps C {w} (reap_tick heartbeat) = (Keeps-reap heartbeat).at w
  Turn-Keeps C {w} scheduler_start = Keeps-start_up.at w
  Turn-Keeps C {w} (passes later os qs h) =
      let same = Lawful-preorder.stays w.store in
      record { store = record { jobs = same.jobs; runners = same.runners; keys = same.keys } }

  pub Run-Keeps : (C : Codec) {w v : World} → Run C w v → Keeps w v
  Run-Keeps C {w} here = Keeps-preorder.stays w
  Run-Keeps C (next r t) = Keeps-preorder.joins _ _ _ (Run-Keeps C r) (Turn-Keeps C t)

  -- After any run, a job that had reached SUCCESS, FAILED or CANCELLED still has its whole row,
  -- the log apart: no webhook, runner request, cancellation, scheduler round or reaper tick
  -- changes it again.
  pub finished_stays :
      (C : Codec) (w v : World) (id : String) (r : JobRow)
      → Run C w v
      → find_row (job_has_id id) w.store.jobs ≡ some r
      → terminal r.status ≡ true
      → (u : JobRow) × (find_row (job_has_id id) v.store.jobs ≡ some u) × (u.job ≡ r.job)
  finished_stays C w v id r run found final =
      let (u, later, step) = Lawful-find_row id r (Run-Keeps C run).store found in
      (u, later, step.frozen final)

  -- After any run, a job that was in the table is still there. It keeps its id, repository, clone
  -- URL, commit, branch, event, labels and time of creation; its status has moved only along
  -- `jobTransitions`; its attempts have not fallen, and its log is the old log with something
  -- behind it.
  pub job_history :
      (C : Codec) (w v : World) (id : String) (r : JobRow)
      → Run C w v
      → find_row (job_has_id id) w.store.jobs ≡ some r
      → (u : JobRow) × (find_row (job_has_id id) v.store.jobs ≡ some u)
        × SameIdentity r.job u.job
        × (r.status ⟶* u.status)
        × (r.attempts ≤ u.attempts)
        × ((new : List ℕ) × (u.logs ≡ r.logs ++ new))
  job_history C w v id r run found =
      let (u, later, step) = Lawful-find_row id r (Run-Keeps C run).store found in
      (u, later, step.identity, step.life, step.counted, step.log_kept)

  -- After any run, a registered runner is still there with its name, labels and token, and its
  -- status has moved only along `runnerTransitions`, although the statements never consult that
  -- table.
  pub runner_history :
      (C : Codec) (w v : World) (id : String) (r : RunnerRow)
      → Run C w v
      → find_row (runner_has_id id) w.store.runners ≡ some r
      → (u : RunnerRow) × (find_row (runner_has_id id) v.store.runners ≡ some u)
        × (u.name ≡ r.name)
        × (u.labels ≡ r.labels)
        × (u.token_hash ≡ r.token_hash)
        × RunnerLife r.status u.status
  runner_history C w v id r run found =
      let (u, later, step) = Lawful-find_runner id r (Run-Keeps C run).store found in
      (u, later, step.name, step.labels, step.token_hash, step.life)

  -- If every row makes sense, as in empty tables, every row makes sense after any run. A queued
  -- job has no runner; an assigned or running one has a runner and at least one attempt; a running
  -- one has a start time; a successful one has an exit code; exactly the finished ones have a time
  -- of completion; and exactly the BUSY runners hold a job.
  pub run-IsSound : (C : Codec) (w v : World) → Run C w v → IsSound w.store → IsSound v.store
  run-IsSound C w v run h = Lawful-IsSound (Run-Keeps C run).store h

  -- If no two jobs share an id, and at most one unfinished job stands for a repository, commit and
  -- event, the same holds after any run: what the INSERT tests is kept by every later change.
  pub run-HasKeys :
      (C : Codec) (w v : World) → Run C w v → HasKeys w.store.jobs → HasKeys v.store.jobs
  run-HasKeys C w v run h = (Run-Keeps C run).store.keys h
