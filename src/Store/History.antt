-- ===== src/Store/History.antt =====
-- What holds along any history of lawful methods: finished jobs, rows that make sense, logs.
use grid_runner.Prelude.{◌≡◌, String, some, arith}
use grid_runner.Store.{JobRow, RunnerRow, Store}
use grid_runner.Store.Rows.{find_row, All}
use grid_runner.Store.Grown.{Grown-find_row, Grown-All}
use grid_runner.Store.Steps.{IsSoundJob, IsSoundRunner, JobStep, RunnerStep}
use grid_runner.Store.Statements.{job_has_id, runner_has_id}
use grid_runner.Store.Lawful.{Lawful, FreshJob, FreshRunner}

pub record IsSound (s : Store) : Type 0 where
  pub jobs : All (λ r. IsSoundJob r.job) s.jobs
  pub runners : All (λ r. IsSoundRunner r.runner) s.runners

pub Lawful-IsSound : {s t : Store} → Lawful s t → IsSound s → IsSound t
Lawful-IsSound {s} {t} l h = record {
  jobs =
      Grown-All JobStep FreshJob (λ r. IsSoundJob r.job) (λ x y st. st.sound) (λ x n. n) s.jobs
        t.jobs l.jobs h.jobs;
  runners =
      Grown-All RunnerStep FreshRunner (λ r. IsSoundRunner r.runner) (λ x y st. st.sound) (λ x n. n)
        s.runners t.runners l.runners h.runners;
}

same_id : (id : String) (x y : JobRow) → JobStep x y → job_has_id id y ≡ job_has_id id x
same_id id x y st = ground (arith, st.identity.id)

-- A job that is in the table stays there, under its id, with a row that `JobStep` allows.
pub Lawful-find_row :
    {s t : Store} (id : String) (r : JobRow)
    → Lawful s t
    → find_row (job_has_id id) s.jobs ≡ some r
    → (u : JobRow) × (find_row (job_has_id id) t.jobs ≡ some u) × JobStep r u
Lawful-find_row {s} {t} id r l found =
    Grown-find_row JobStep FreshJob (job_has_id id) (same_id id) s.jobs t.jobs r l.jobs found

same_runner :
    (id : String) (x y : RunnerRow) → RunnerStep x y → runner_has_id id y ≡ runner_has_id id x
same_runner id x y st = ground (arith, st.id)

pub Lawful-find_runner :
    {s t : Store} (id : String) (r : RunnerRow)
    → Lawful s t
    → find_row (runner_has_id id) s.runners ≡ some r
    → (u : RunnerRow) × (find_row (runner_has_id id) t.runners ≡ some u) × RunnerStep r u
Lawful-find_runner {s} {t} id r l found =
    Grown-find_row RunnerStep FreshRunner (runner_has_id id) (same_runner id) s.runners t.runners r
      l.runners found
