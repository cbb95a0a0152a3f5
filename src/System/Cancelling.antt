-- ===== src/System/Cancelling.antt =====
-- A cancellation, from the API to the runner: internal/api and the heartbeat of
-- internal/runner/agent.go together, when PostgreSQL answers every request.
use mathlib.Core.Option
use grid_runner.Prelude.{ℕ, ◌≡◌, refl, ap, ◌∙◌, String, true, false, some, List, ◌∷◌, lt→ltb, ◌==◌}
use grid_runner.Fallible.{ok}
use grid_runner.Exec.{pure, choose, handle, ◌>>=◌}
use grid_runner.Models.{JobStatus, cancelled, can_transition_to, terminal}
use grid_runner.Config.{Config}
use grid_runner.Store.{JobRow, RunnerRow, statement, answer}
use grid_runner.Store.Rows.{find_row, update_rows, find_row-update_rows}
use grid_runner.Store.Statements.{job_has_id, runner_has_id, update_runners}
use grid_runner.Store.Jobs.{still, cancel_job}
use grid_runner.Store.Runners.{heartbeat, revive}
use grid_runner.Store.Candidates.{calm_store, get_job-calm, Has-find_row, count_rows-pos}
use grid_runner.Store.Changes.{
  job_status_eq_refl, transition-calm, released, release_of-calm, find_row-still,
}
use grid_runner.Queue.{Redis}
use grid_runner.World.{in_store}
use grid_runner.World.Calm.{calm}
use grid_runner.Api.{Codec, Request, Body, write, status, beat}
use grid_runner.Api.Jobs.{handle_cancel_job}
use grid_runner.Api.Runners.{lease_lost, answer_heartbeat, handle_heartbeat}
use grid_runner.System.Network.{transmit}
use grid_runner.Runner.Protocol.{
  Codec as AgentCodec, ActiveJob, Agent, request, heartbeat_request, do_request, end_heartbeat,
}

-- The row of a job after a cancellation.
abbrev pub cancelled_row : ℕ → JobRow → JobRow
cancelled_row now r = record r {
  job = record r.job { status = cancelled; completed_at = some now };
}

abbrev cancelled_jobs : String → JobStatus → ℕ → List JobRow → List JobRow
cancelled_jobs id from now jobs = update_rows (still id from) (cancelled_row now) jobs

cancel_job-calm :
    (id runner_id : String) (jobs : List JobRow) (runners : List RunnerRow) (now : ℕ) (row : JobRow)
    → find_row (job_has_id id) jobs ≡ some row
    → can_transition_to row.status cancelled ≡ true
    → row.runner_id ≡ some runner_id
    → cancel_job id (calm_store jobs runners now)
      ≡ (ok tt, calm_store (cancelled_jobs id row.status now jobs) (released runner_id runners) now)
unfolding cancel_job ◌>>=◌
cancel_job-calm id runner_id jobs runners now row found may held =
    rw (transition-calm id cancelled true _ jobs runners now row found may refl)
      (release_of-calm (record row.job { status = cancelled }) runner_id _ runners now held)

-- The rows of the runners after a heartbeat.
abbrev beaten : String → ℕ → List RunnerRow → List RunnerRow
beaten runner_id now runners =
    update_rows (runner_has_id runner_id)
      (λ r. record r {
        runner = record r.runner { last_heartbeat = now; status = revive r.status };
      })
      runners

heartbeat-calm :
    (runner_id : String) (jobs : List JobRow) (runners : List RunnerRow) (now : ℕ) (x : RunnerRow)
    → find_row (runner_has_id runner_id) runners ≡ some x
    → heartbeat runner_id (calm_store jobs runners now)
      ≡ (ok tt, calm_store jobs (beaten runner_id now runners) now)
unfolding heartbeat update_runners statement answer choose pure ◌>>=◌
heartbeat-calm runner_id jobs runners now x found =
    let (there, named) = Has-find_row (runner_has_id runner_id) x runners found in
    rw (lt→ltb _ _ (count_rows-pos (runner_has_id runner_id) x runners there named)) refl

released_found :
    (runner_id : String) (runners : List RunnerRow) (x : RunnerRow)
    → find_row (runner_has_id runner_id) runners ≡ some x
    → (y : RunnerRow) × (find_row (runner_has_id runner_id) (released runner_id runners) ≡ some y)
released_found runner_id runners x found =
    let updated = find_row-update_rows (runner_has_id runner_id) _ _ runners (λ r. refl) in
    (_, updated ∙ ap (Option.map _) found)

module _ ⦃R : Redis⦄ where
  handle_cancel_job-calm :
      (r : Request) (runner_id : String) (jobs : List JobRow) (runners : List RunnerRow) (now : ℕ)
      (d : R.Db) (row : JobRow)
      → find_row (job_has_id r.path_id) jobs ≡ some row
      → can_transition_to row.status cancelled ≡ true
      → row.runner_id ≡ some runner_id
      → handle_cancel_job r (calm jobs runners now d) ≡ (
        ok (write 200 (status "CANCELLED")),
        calm (cancelled_jobs r.path_id row.status now jobs) (released runner_id runners) now d,
      )
  unfolding handle_cancel_job handle in_store pure
  handle_cancel_job-calm r runner_id jobs runners now d row found may held =
      rw (cancel_job-calm r.path_id runner_id jobs runners now row found may held) refl

  handle_heartbeat-finished :
      (C : Codec) (b : Request) (id : String) (jobs : List JobRow) (runners : List RunnerRow)
      (now : ℕ) (d : R.Db) (row : JobRow) (x : RunnerRow)
      → C.decode_heartbeat 4096 b.body ≡ some id
      → (id == "") ≡ false
      → find_row (job_has_id id) jobs ≡ some row
      → terminal row.status ≡ true
      → find_row (runner_has_id b.path_id) runners ≡ some x
      → (handle_heartbeat C b (calm jobs runners now d)).0 ≡ ok (write 200 (beat true))
  unfolding handle_heartbeat answer_heartbeat lease_lost handle in_store choose pure ◌>>=◌
  handle_heartbeat-finished C b id jobs runners now d row x named filled found over known =
      rw
        (
          heartbeat-calm b.path_id jobs runners now x known,
          named,
          filled,
          get_job-calm id jobs (beaten b.path_id now runners) now row found,
          over,
        )
        refl

  -- A job that a runner holds is cancelled: the API answers 200 and the row is CANCELLED. The next
  -- heartbeat of the runner, which names the job, is answered so that the runner marks the job as
  -- abandoned. PostgreSQL answers every request, the runner is registered, and the two sides read
  -- each other's JSON.
  pub cancel_reaches_runner :
      {F : Type 0} (C : Codec) (P : AgentCodec) (cfg : Config F) (encode : Body → List ℕ)
      (r base : Request) (a : Agent) (j : ActiveJob) (jobs : List JobRow) (runners : List RunnerRow)
      (now : ℕ) (d : R.Db) (row : JobRow) (x : RunnerRow)
      → find_row (job_has_id r.path_id) jobs ≡ some row
      → can_transition_to row.status cancelled ≡ true
      → row.runner_id ≡ some a.id
      → find_row (runner_has_id a.id) runners ≡ some x
      → a.active ≡ some j
      → j.id ≡ r.path_id
      → (r.path_id == "") ≡ false
      → C.decode_heartbeat 4096 (P.heartbeat_body r.path_id) ≡ some r.path_id
      → P.decode_cancel (encode (beat true)) ≡ some true
      → let (b, w) = handle_cancel_job r (calm jobs runners now d) in
        let sent = record base { path_id = a.id; body = (heartbeat_request P cfg a).body } in
        (b ≡ ok (write 200 (status "CANCELLED")))
        × (find_row (job_has_id r.path_id) w.store.jobs ≡ some (cancelled_row now row))
        × (end_heartbeat P cfg (transmit encode (handle_heartbeat C sent w).0) a.active a
            ≡ record a { marked = j.number ∷ a.marked })
  unfolding end_heartbeat do_request request
  cancel_reaches_runner C P cfg encode r base a j jobs runners now d row x found may held known runs
        same filled reads understood =
      let stopped = handle_cancel_job-calm r a.id jobs runners now d row found may held in
      let there =
        find_row-still r.path_id row.status (cancelled_row now) jobs row (λ y. refl) found
          (job_status_eq_refl row.status) in
      let (y, still_known) = released_found a.id runners x known in
      let sent = record base { path_id = a.id; body = P.heartbeat_body r.path_id } in
      let told =
        handle_heartbeat-finished C sent r.path_id _ (released a.id runners) now d
          (cancelled_row now row) y reads filled there refl still_known in
      rw (stopped, runs, same) (refl, there, rw (told, understood) refl)
