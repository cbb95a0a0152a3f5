-- ===== src/Store/Jobs.antt =====
-- internal/store/store.go: the methods that change or read one job.
use grid_runner.Store.Columns.{takes_result, takes_chunk}
use grid_runner.Prelude.{
  ℕ, zero, suc, ◌+◌, String, ℤ, Bool, true, false, not, ◌&&◌, Option, none, some, List, ◌++◌, ltb,
}
use grid_runner.Fallible.{
  Result, ok, err, not_found, invalid_transition, not_idle, out_of_range, foreign_key_violation,
}
use grid_runner.Exec.{Exec, pure, raise, choose, choose_at, ◌>>=◌, from_option}
use grid_runner.Models.{
  Job, JobStatus, queued, assigned, running, cancelled, idle, busy, job_status_eq, runner_status_eq,
  can_transition_to,
}
use grid_runner.Store.{JobRow, RunnerRow, Store, statement, transaction}
use grid_runner.Store.Rows.{find_row, update_rows, count_rows}
use grid_runner.Store.Statements.{job_has_id, runner_has_id, get_job, update_jobs, update_runners}

abbrev pub set_status : JobStatus → JobRow → JobRow
set_status to r = record r { job = record r.job { status = to } }

-- `WHERE id = $2 AND status = $3`.
abbrev pub still : String → JobStatus → JobRow → Bool
still id status r = job_has_id id r && job_status_eq r.status status

-- The read, the test of the state machine, and the guarded write of one status change, whose
-- arguments the columns take or do not take.
unfoldable pub transition : String → JobStatus → Bool → (ℕ → JobRow → JobRow) → Exec Store Job
transition id to takes extra = do
  job ← get_job id
  choose (not (can_transition_to job.status to)) (raise invalid_transition) (
      choose (not takes) (raise out_of_range) do
        affected ← update_jobs (still id job.status) (λ now r. extra now (set_status to r))
        choose (ltb 0 affected) (pure (record job { status = to })) (raise invalid_transition))

abbrev pub take_row : String → JobRow → JobRow
take_row runner_id r = record r {
  job = record r.job { status = assigned; runner_id = some runner_id; attempts = r.attempts + 1 };
}

-- `REFERENCES runners(id)` is tested when a row is written.
unfoldable pub assign_row : String → String → JobStatus → Exec Store ℕ
assign_row job_id runner_id status =
    choose_at
      (λ s.
        ltb 0 (count_rows (still job_id status) s.jobs)
        && not (ltb 0 (count_rows (runner_has_id runner_id) s.runners)))
      (raise foreign_key_violation)
      (λ s. (
        ok (count_rows (still job_id status) s.jobs),
        record s { jobs = update_rows (still job_id status) (take_row runner_id) s.jobs },
      ))

-- The second statement of the transaction: `RowsAffected() == 0` when the runner is not idle.
abbrev pub occupy : String → String → ℕ → RunnerRow → RunnerRow
occupy job_id runner_id now r = record r {
  runner = record r.runner {
    status = busy;
    current_job_id = some job_id;
    last_assigned = some now;
  };
}

unfoldable pub assign_statements : String → String → JobStatus → Exec Store (Unit {0})
assign_statements job_id runner_id status = do
  affected ← statement (assign_row job_id runner_id status)
  choose (not (ltb 0 affected)) (raise invalid_transition) do
    taken ←
        update_runners (λ r. runner_has_id runner_id r && runner_status_eq r.status idle)
          (occupy job_id runner_id)
    choose (ltb 0 taken) (pure tt) (raise not_idle)

unfoldable pub assign_job : String → String → Exec Store (Unit {0})
assign_job job_id runner_id = do
  job ← get_job job_id
  choose (not (can_transition_to job.status assigned)) (raise invalid_transition)
      (transaction (assign_statements job_id runner_id job.status))

unfoldable pub release_runner : String → Exec Store (Unit {0})
release_runner runner_id = do
  affected ←
      update_runners (λ r. runner_has_id runner_id r && runner_status_eq r.status busy)
        (λ now r. record r { runner = record r.runner { status = idle; current_job_id = none } })
  pure tt

-- `if job.RunnerID != nil { return s.releaseRunner(ctx, *job.RunnerID) }`.
unfoldable pub release_of : Job → Exec Store (Unit {0})
release_of job = from_option job.runner_id (pure tt) release_runner

unfoldable pub start_job : String → Exec Store (Unit {0})
start_job id = do
  job ←
      transition id running true
        (λ now r. record r { job = record r.job { started_at = some now } })
  pure tt

unfoldable pub complete_job : String → JobStatus → ℤ → String → Exec Store (Unit {0})
complete_job id status exit_code err_msg = do
  job ← transition id status (takes_result exit_code err_msg) (λ now r. record r {
    job = record r.job { exit_code = some exit_code; error = err_msg; completed_at = some now };
  })
  release_of job

unfoldable pub requeue_job : String → Exec Store (Unit {0})
requeue_job id = do
  job ←
      transition id queued true
        (λ now r. record r { job = record r.job { runner_id = none; started_at = none } })
  release_of job

unfoldable pub cancel_job : String → Exec Store (Unit {0})
cancel_job id = do
  job ←
      transition id cancelled true
        (λ now r. record r { job = record r.job { completed_at = some now } })
  release_of job

abbrev pub is_one : ℕ → Bool
is_one (suc zero) = true
is_one _ = false

abbrev pub scan_seq : Option JobRow → Result ℕ
scan_seq none = err not_found
scan_seq (some r) = ok r.log_seq

unfoldable pub append_logs : String → ℕ → List ℕ → Exec Store (Unit {0})
append_logs id seq chunk = choose (not (takes_chunk seq chunk)) (raise out_of_range) do
  affected ←
      update_jobs (λ r. job_has_id id r && ltb r.log_seq seq)
        (λ now r. record r { logs = r.logs ++ chunk; log_seq = seq })
  choose (is_one affected) (pure tt)
      do current ← statement (λ s. (scan_seq (find_row (job_has_id id) s.jobs), s)); pure tt

abbrev pub scan_logs : Option JobRow → Result (List ℕ)
scan_logs none = err not_found
scan_logs (some r) = ok r.logs

unfoldable pub get_logs : String → Exec Store (List ℕ)
get_logs id = statement (λ s. (scan_logs (find_row (job_has_id id) s.jobs), s))
