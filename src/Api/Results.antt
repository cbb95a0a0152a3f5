-- ===== src/Api/Results.antt =====
-- internal/api/jobs.go, handleJobResult, when PostgreSQL answers every request.
use grid_runner.Store.Columns.{takes_result}
use grid_runner.Prelude.{ℕ, ◌≡◌, refl, String, ℤ, true, Option, none, some, List, eq_refl}
use grid_runner.Fallible.{Result, ok}
use grid_runner.Exec.{pure, choose, handle, from_option, ◌>>=◌}
use grid_runner.Models.{
  JobStatus, queued, assigned, running, success, failed, cancelled, can_transition_to,
  job_status_eq, parse_job_status,
}
use grid_runner.Store.{JobRow, RunnerRow, Store, answer}
use grid_runner.Store.Rows.{find_row, update_rows}
use grid_runner.Store.Statements.{job_has_id}
use grid_runner.Store.Jobs.{still, complete_job}
use grid_runner.Store.Changes.{
  job_status_eq_refl, transition-calm, released, release_of-calm, find_row-still,
}
use grid_runner.Store.Candidates.{calm_store, get_job-calm}
use grid_runner.Queue.{Redis}
use grid_runner.World.{World, in_store, ignore}
use grid_runner.World.Calm.{calm}
use grid_runner.Api.{
  Codec, Request, ResultRequest, Response, write, status, owned_by, runner_owns_job,
}
use grid_runner.Api.Jobs.{reported, status_text, finish_job, handle_job_result}

-- The row of a job after its result.
abbrev pub with_result : JobStatus → ℤ → String → ℕ → JobRow → JobRow
with_result to exit_code error now r = record r {
  job = record r.job {
    status = to;
    exit_code = some exit_code;
    error = error;
    completed_at = some now;
  };
}

abbrev pub completed_store :
    String → String → JobStatus → JobStatus → ℤ → String → List JobRow → List RunnerRow → ℕ → Store
completed_store id runner_id from to exit_code error jobs runners now =
    calm_store (update_rows (still id from) (with_result to exit_code error now) jobs)
      (released runner_id runners) now

complete_job-calm :
    (id runner_id : String) (to : JobStatus) (exit_code : ℤ) (error : String) (jobs : List JobRow)
    (runners : List RunnerRow) (now : ℕ) (row : JobRow)
    → find_row (job_has_id id) jobs ≡ some row
    → can_transition_to row.status to ≡ true
    → row.runner_id ≡ some runner_id
    → takes_result exit_code error ≡ true
    → complete_job id to exit_code error (calm_store jobs runners now)
      ≡ (ok tt, completed_store id runner_id row.status to exit_code error jobs runners now)
unfolding complete_job ◌>>=◌
complete_job-calm id runner_id to exit_code error jobs runners now row found may held stored =
    rw (transition-calm id to _ _ jobs runners now row found may stored)
      (release_of-calm (record row.job { status = to }) runner_id _ runners now held)

reported-cases :
    (o : Option JobStatus) (to : JobStatus)
    → reported o ≡ some to
    → can_transition_to running to ≡ true
reported-cases none to h = absurd (cc)
reported-cases (some queued) to h = absurd (cc)
reported-cases (some assigned) to h = absurd (cc)
reported-cases (some running) to h = absurd (cc)
reported-cases (some cancelled) to h = absurd (cc)
reported-cases (some success) to h = let same : success ≡ to = cc in rw (← same) refl
reported-cases (some failed) to h = let same : failed ≡ to = cc in rw (← same) refl

completed_row :
    (id runner_id : String) (from to : JobStatus) (exit_code : ℤ) (error : String)
    (jobs : List JobRow) (runners : List RunnerRow) (now : ℕ) (row : JobRow)
    → find_row (job_has_id id) jobs ≡ some row
    → job_status_eq row.status from ≡ true
    → find_row
        (job_has_id id)
        (completed_store id runner_id from to exit_code error jobs runners now).jobs
      ≡ some (with_result to exit_code error now row)
completed_row id runner_id from to exit_code error jobs runners now row found at_from =
    find_row-still id from (with_result to exit_code error now) jobs row (λ r. refl) found at_from

module _ ⦃R : Redis⦄ where
  -- The handler's answer, the row of the job, and the runner.
  abbrev pub IsRecorded :
      Request
      → ResultRequest
      → JobStatus
      → List JobRow
      → List RunnerRow
      → ℕ
      → JobRow
      → Result Response × World
      → Type 0
  IsRecorded r req to jobs runners now row (answer, w) =
      (answer ≡ ok (write 200 (status (status_text to))))
      × (w.store
          ≡ completed_store r.path_id r.runner_id row.status to req.exit_code req.error jobs runners
              now)
      × (find_row (job_has_id r.path_id) w.store.jobs
          ≡ some (with_result to req.exit_code req.error now row))

  -- When PostgreSQL answers every request, a result that the runner of a RUNNING job sends, with a
  -- body that can be decoded, a status that may be reported, an exit code that fits a column INT and
  -- an error without a zero character, is answered with 200; the row of the
  -- job then has that status, the exit code, the error and a time of completion, and is as it was
  -- otherwise; the runner, if it was BUSY, is IDLE and holds no job; and no other row has changed.
  pub handle_job_result-IsRecorded :
      (C : Codec) (r : Request) (req : ResultRequest) (to : JobStatus) (jobs : List JobRow)
      (runners : List RunnerRow) (now : ℕ) (d : R.Db) (row : JobRow)
      → find_row (job_has_id r.path_id) jobs ≡ some row
      → row.status ≡ running
      → row.runner_id ≡ some r.runner_id
      → C.decode_result 65536 r.body ≡ some req
      → reported (parse_job_status req.status) ≡ some to
      → takes_result req.exit_code req.error ≡ true
      → IsRecorded r req to jobs runners now row (handle_job_result C r (calm jobs runners now d))
  unfolding handle_job_result runner_owns_job finish_job ignore handle in_store from_option choose
      pure ◌>>=◌
  handle_job_result-IsRecorded C r req to jobs runners now d row found runs held decodes may
        stored =
      let moves : can_transition_to row.status to ≡ true =
        rw runs (reported-cases (parse_job_status req.status) to may) in
      let owns : owned_by row.runner_id r.runner_id ≡ true = rw held (eq_refl r.runner_id) in
      let done_ =
        complete_job-calm r.path_id r.runner_id to req.exit_code req.error jobs runners now row
          found moves held stored in
      let at_from = job_status_eq_refl row.status in
      let now_there =
        completed_row r.path_id r.runner_id row.status to req.exit_code req.error jobs runners now
          row found at_from in
      let read = get_job-calm r.path_id _ (released r.runner_id runners) now _ now_there in
      rw (get_job-calm r.path_id jobs runners now row found, owns, decodes, may, done_, read)
        (refl, refl, now_there)
