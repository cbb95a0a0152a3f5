-- ===== src/Store/Statements.antt =====
-- internal/store/store.go: the SELECT of one job, and UPDATE statements.
use grid_runner.Prelude.{ℕ, String, Bool, Option, none, some, ◌==◌}
use grid_runner.Fallible.{Result, ok, err, not_found}
use grid_runner.Exec.{Exec}
use grid_runner.Models.{Job}
use grid_runner.Store.{JobRow, RunnerRow, Store, statement}
use grid_runner.Store.Rows.{find_row, update_rows, count_rows}

abbrev pub job_has_id : String → JobRow → Bool
job_has_id id r = r.id == id

abbrev pub runner_has_id : String → RunnerRow → Bool
runner_has_id id r = r.id == id

-- SELECT of one row, as `scanJob` reads it.
abbrev pub scan_job : Option JobRow → Result Job
scan_job none = err not_found
scan_job (some r) = ok r.job

unfoldable pub get_job : String → Exec Store Job
get_job id = statement (λ s. (scan_job (find_row (job_has_id id) s.jobs), s))

-- UPDATE jobs SET … WHERE …; `set` also gets `now()`. The answer is `RowsAffected`.
unfoldable pub update_jobs : (JobRow → Bool) → (ℕ → JobRow → JobRow) → Exec Store ℕ
update_jobs test set =
    statement
      (λ s. (ok (count_rows test s.jobs), record s { jobs = update_rows test (set s.now) s.jobs }))

-- UPDATE runners SET … WHERE ….
unfoldable pub update_runners : (RunnerRow → Bool) → (ℕ → RunnerRow → RunnerRow) → Exec Store ℕ
update_runners test set = statement (λ s.
    (ok (count_rows test s.runners), record s { runners = update_rows test (set s.now) s.runners }))
