-- ===== src/Api/Starts.antt =====
-- internal/api: handlePollJob and handleJobStart, when PostgreSQL and Redis do every request.
use grid_runner.Prelude.{
  ℕ, ◌≡◌, refl, String, Bool, true, some, List, [], ◌∷◌, ◌++◌, ◌==◌, eq_refl, if◌then◌else◌,
}
use grid_runner.Fallible.{Result, ok}
use grid_runner.Exec.{pure, choose, handle, ◌>>=◌}
use grid_runner.Models.{JobStatus, running, can_transition_to}
use grid_runner.Store.{JobRow, RunnerRow}
use grid_runner.Store.Rows.{find_row, update_rows}
use grid_runner.Store.Statements.{job_has_id}
use grid_runner.Store.Jobs.{still, start_job}
use grid_runner.Store.Candidates.{calm_store, get_job-calm}
use grid_runner.Store.Changes.{job_status_eq_refl, transition-calm, find_row-still}
use grid_runner.Queue.{Redis, runner_key, receive, command, reply}
use grid_runner.World.{in_store, in_broker, ignore}
use grid_runner.World.Calm.{calm}
use grid_runner.Api.{Request, write, status, delivery, owned_by, runner_owns_job}
use grid_runner.Api.Jobs.{handle_job_start}
use grid_runner.Api.Runners.{token_or_empty, handle_poll_job}

-- The row of a job after its start.
abbrev pub started_row : ℕ → JobRow → JobRow
started_row now r = record r { job = record r.job { status = running; started_at = some now } }

abbrev pub started_jobs : String → JobStatus → ℕ → List JobRow → List JobRow
started_jobs id from now jobs = update_rows (still id from) (started_row now) jobs

pub start_job-calm :
    (id : String) (jobs : List JobRow) (runners : List RunnerRow) (now : ℕ) (row : JobRow)
    → find_row (job_has_id id) jobs ≡ some row
    → can_transition_to row.status running ≡ true
    → start_job id (calm_store jobs runners now)
      ≡ (ok tt, calm_store (started_jobs id row.status now jobs) runners now)
unfolding start_job pure ◌>>=◌
start_job-calm id jobs runners now row found may =
    rw (transition-calm id running true _ jobs runners now row found may refl) refl

module _ ⦃R : Redis⦄ where
  -- The oldest id of the mailbox leaves it with its job.
  pub handle_poll_job-calm :
      (clone_token : String → Result String) (gone : Bool) (r : Request) (id : String)
      (xs : List String) (jobs : List JobRow) (runners : List RunnerRow) (now : ℕ) (d : R.Db)
      (row : JobRow)
      → R.list d (runner_key r.path_id) ≡ xs ++ id ∷ []
      → find_row (job_has_id id) jobs ≡ some row
      → (e : R.Db) × (handle_poll_job clone_token gone r (calm jobs runners now d) ≡ (
        ok (write 200 (delivery row.job (token_or_empty (clone_token row.repository)))),
        calm jobs runners now e,
      ))
        × ((k : String) → R.list e k ≡ (if runner_key r.path_id == k then xs else R.list d k))
  unfolding handle_poll_job handle in_broker in_store receive command reply pure
  handle_poll_job-calm clone_token gone r id xs jobs runners now d row waiting found =
      let (e, popped, lists) = R.brpop_last (runner_key r.path_id) d xs id waiting in
      (e, rw (popped, get_job-calm id jobs runners now row found) refl, lists)

  pub handle_job_start-calm :
      (r : Request) (jobs : List JobRow) (runners : List RunnerRow) (now : ℕ) (d : R.Db)
      (row : JobRow)
      → find_row (job_has_id r.path_id) jobs ≡ some row
      → can_transition_to row.status running ≡ true
      → row.runner_id ≡ some r.runner_id
      → handle_job_start r (calm jobs runners now d) ≡ (
        ok (write 200 (status "RUNNING")),
        calm (started_jobs r.path_id row.status now jobs) runners now d,
      )
  unfolding handle_job_start runner_owns_job ignore handle in_store choose pure ◌>>=◌
  handle_job_start-calm r jobs runners now d row found may held =
      let owns : owned_by row.runner_id r.runner_id ≡ true = rw held (eq_refl r.runner_id) in
      let there =
        find_row-still r.path_id row.status (started_row now) jobs row (λ x. refl) found
          (job_status_eq_refl row.status) in
      rw
        (
          get_job-calm r.path_id jobs runners now row found,
          owns,
          start_job-calm r.path_id jobs runners now row found may,
          get_job-calm r.path_id _ runners now _ there,
        )
        refl
