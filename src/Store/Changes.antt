-- ===== src/Store/Changes.antt =====
-- internal/store/store.go: the changes of a job, when PostgreSQL answers every request.
use grid_runner.Prelude.{Bool, ℕ, ◌<◌, ◌≡◌, refl, ◌∙◌, String, true, ◌&&◌, none, some, List, lt→ltb}
use grid_runner.Fallible.{ok}
use grid_runner.Exec.{pure, choose, from_option, ◌>>=◌}
use grid_runner.Models.{
  Job, JobStatus, queued, assigned, running, success, failed, cancelled, can_transition_to,
  job_status_eq, runner_status_eq, idle, busy,
}
use grid_runner.Store.{JobRow, RunnerRow, statement, answer}
use grid_runner.Store.Rows.{find_row, update_rows, count_rows, find_row-update_rows}
use grid_runner.Store.Statements.{job_has_id, runner_has_id, update_jobs, update_runners}
use grid_runner.Store.Jobs.{set_status, still, transition, release_runner, release_of}
use grid_runner.Store.Candidates.{calm_store, get_job-calm, Has-find_row, count_rows-pos}

pub job_status_eq_refl : (s : JobStatus) → job_status_eq s s ≡ true
job_status_eq_refl queued = refl
job_status_eq_refl assigned = refl
job_status_eq_refl running = refl
job_status_eq_refl success = refl
job_status_eq_refl failed = refl
job_status_eq_refl cancelled = refl

-- The row after a change of status.
abbrev pub moved : JobStatus → (ℕ → JobRow → JobRow) → ℕ → JobRow → JobRow
moved to extra now r = extra now (set_status to r)

pub transition-calm :
    (id : String) (to : JobStatus) (takes : Bool) (extra : ℕ → JobRow → JobRow) (jobs : List JobRow)
    (runners : List RunnerRow) (now : ℕ) (row : JobRow)
    → find_row (job_has_id id) jobs ≡ some row
    → can_transition_to row.status to ≡ true
    → takes ≡ true
    → transition id to takes extra (calm_store jobs runners now) ≡ (
      ok (record row.job { status = to }),
      calm_store (update_rows (still id row.status) (moved to extra now) jobs) runners now,
    )
unfolding transition update_jobs statement answer choose pure ◌>>=◌
transition-calm id to takes extra jobs runners now row found may fit =
    let (there, named) = Has-find_row (job_has_id id) row jobs found in
    let some_row : 0 < count_rows (still id row.status) jobs =
      count_rows-pos (still id row.status) row jobs there
        (rw named (job_status_eq_refl row.status)) in
    rw (get_job-calm id jobs runners now row found, may, fit, lt→ltb _ _ some_row) refl

abbrev pub released : String → List RunnerRow → List RunnerRow
released runner_id runners =
    update_rows (λ r. runner_has_id runner_id r && runner_status_eq r.status busy)
      (λ r. record r { runner = record r.runner { status = idle; current_job_id = none } }) runners

pub release_of-calm :
    (j : Job) (runner_id : String) (jobs : List JobRow) (runners : List RunnerRow) (now : ℕ)
    → j.runner_id ≡ some runner_id
    → release_of j (calm_store jobs runners now)
      ≡ (ok tt, calm_store jobs (released runner_id runners) now)
unfolding release_of release_runner update_runners statement answer from_option pure ◌>>=◌
release_of-calm j runner_id jobs runners now held = rw held refl

-- The row that the UPDATE has written is the one that the id finds.
pub find_row-still :
    (id : String) (from : JobStatus) (f : JobRow → JobRow) (jobs : List JobRow) (row : JobRow)
    → ((r : JobRow) → job_has_id id (f r) ≡ job_has_id id r)
    → find_row (job_has_id id) jobs ≡ some row
    → job_status_eq row.status from ≡ true
    → find_row (job_has_id id) (update_rows (still id from) f jobs) ≡ some (f row)
find_row-still id from f jobs row same found at_from =
    let (there, named) = Has-find_row (job_has_id id) row jobs found in
    find_row-update_rows (job_has_id id) (still id from) f jobs same
    ∙ rw (found, named, at_from) refl
