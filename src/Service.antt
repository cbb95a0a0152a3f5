-- ===== src/Service.antt =====
-- internal/scheduler/service.go: the loop that assigns queued jobs and the loop that reaps silent
-- runners. Logging and the sleeps between attempts are left out.
pub mod Lawful
pub mod Rounds
pub mod Progress
pub mod Loop
pub mod Waiting
pub mod Rescued
use grid_runner.Prelude.{ℕ, String, not, List, [], ◌∷◌, Option, none, some, ◌==◌}
use grid_runner.Exec.{Exec, pure, choose, handle, ◌>>=◌, ◌>>◌}
use grid_runner.Models.{Job, Runner, queued, job_status_eq}
use grid_runner.Scheduler.{schedule}
use grid_runner.Store.Statements.{get_job}
use grid_runner.Store.Jobs.{assign_job, requeue_job}
use grid_runner.Store.Runners.{idle_runners, reap_offline_runners}
use grid_runner.Queue.{Redis, enqueue, dequeue, ack, requeue, recover, dispatch}
use grid_runner.World.{World, in_store, in_broker, ignore, from_result}

module _ ⦃R : Redis⦄ where
  -- `s.requeue`: its error is only logged.
  unfoldable pub requeue_quietly : String → Exec World (Unit {0})
  requeue_quietly job_id = ignore (in_broker (requeue job_id))

  unfoldable pub hand_over : String → String → Exec World (Unit {0})
  hand_over job_id runner_id =
      handle (in_broker (dispatch runner_id job_id)) (λ _. ignore (in_broker (ack job_id)))
        (λ _. ignore (in_store (requeue_job job_id)) >> requeue_quietly job_id)

  unfoldable pub place : String → Job → List Runner → Exec World (Unit {0})
  place job_id job candidates =
      handle (from_result (schedule job candidates))
        (λ runner.
          handle (in_store (assign_job job_id runner.id)) (λ _. hand_over job_id runner.id)
            (λ _. requeue_quietly job_id))
        (λ _. requeue_quietly job_id)

  unfoldable pub assign : ℕ → String → Exec World (Unit {0})
  assign heartbeat job_id =
      handle (in_store (get_job job_id))
        (λ job. choose (not (job_status_eq job.status queued)) (ignore (in_broker (ack job_id))) (
          handle (in_store (idle_runners heartbeat)) (λ candidates. place job_id job candidates)
            (λ _. requeue_quietly job_id)))
        (λ _. ignore (in_broker (ack job_id)))

  -- One round of the loop in `Run`.
  unfoldable pub poll_queue : ℕ → Exec World (Unit {0})
  poll_queue heartbeat = handle (in_broker dequeue) (assign heartbeat) (λ _. pure tt)

  unfoldable pub rescue : String → Exec World (Unit {0})
  rescue job_id = choose (job_id == "") (pure tt) (
      handle (in_store (requeue_job job_id)) (λ _. ignore (in_broker (enqueue job_id)))
        (λ _. pure tt))

  unfoldable pub rescue_all : List (String × String) → Exec World (Unit {0})
  rescue_all [] = pure tt
  rescue_all ((runner_id, job_id) ∷ rest) = rescue job_id >> rescue_all rest

  -- One tick of `reapLoop`.
  unfoldable pub reap : ℕ → Exec World (Unit {0})
  reap heartbeat = handle (in_store (reap_offline_runners heartbeat)) rescue_all (λ _. pure tt)

  -- `Run` before its loop.
  unfoldable pub start_up : Exec World (Unit {0})
  start_up = ignore (in_broker recover)
