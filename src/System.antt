-- ===== src/System.antt =====
-- The control plane as a whole: its processes take turns on the shared state. A turn is one
-- handler, one round of the scheduler's loop or one tick of the reaper, with any answers of
-- PostgreSQL and Redis to its requests; the clock and the answers change between turns.
pub mod Safety
pub mod Logs
pub mod Network
pub mod Builds
pub mod Push
pub mod Shipping
pub mod Shipped
pub mod Cancelling
pub mod Rescue
pub mod Served
pub mod Forgotten
use grid_runner.Prelude.{ℕ, ◌≤◌, String, Bool, List}
use grid_runner.Fallible.{Result}
use grid_runner.Store.{Outcome}
use grid_runner.Queue.{Redis}
use grid_runner.World.{World}
use grid_runner.Service.{poll_queue, reap, start_up}
use grid_runner.Api.{Codec, Request, with_runner_auth}
use grid_runner.Api.Jobs.{handle_cancel_job, handle_job_start, handle_job_logs, handle_job_result}
use grid_runner.Api.Runners.{handle_register, handle_heartbeat, handle_poll_job}
use grid_runner.Api.Webhook.{handle_webhook}

module _ ⦃R : Redis⦄ where
  -- The routes of `Routes` that change state, each behind the check that it stands behind there.
  pub data Turn (C : Codec) (w : World) : World → Type 0 where
    webhook : (secret id : String) (r : Request) → Turn C w (handle_webhook C secret id r w).1
    register :
        (secret id : String) (token : Result String) (r : Request)
        → Turn C w (handle_register C secret id token r w).1
    beat : (r : Request) → Turn C w (with_runner_auth C (handle_heartbeat C) r w).1
    poll :
        (clone_token : String → Result String) (gone : Bool) (r : Request)
        → Turn C w (with_runner_auth C (handle_poll_job clone_token gone) r w).1
    start : (r : Request) → Turn C w (with_runner_auth C handle_job_start r w).1
    log : (r : Request) → Turn C w (with_runner_auth C handle_job_logs r w).1
    result : (r : Request) → Turn C w (with_runner_auth C (handle_job_result C) r w).1
    cancel : (r : Request) → Turn C w (handle_cancel_job r w).1
    schedule_round : (heartbeat : ℕ) → Turn C w (poll_queue heartbeat w).1
    reap_tick : (heartbeat : ℕ) → Turn C w (reap heartbeat w).1
    scheduler_start : Turn C w (start_up w).1
    passes :
        (later : ℕ) (os qs : List Outcome)
        → w.store.now ≤ later
        → Turn C w (record w {
          store = record w.store { now = later; outcomes = os };
          broker = record w.broker { outcomes = qs };
        })

  pub data Run (C : Codec) (w : World) : World → Type 0 where
    here : Run C w w
    next : {v u : World} → Run C w v → Turn C v u → Run C w u
