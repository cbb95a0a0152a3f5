-- ===== src/Store/Creation.antt =====
-- internal/store/store.go: CreateJob and ListJobs, with the keys of
-- migrations/0001_init.sql.
use grid_runner.Prelude.{
  ℕ, Bool, true, false, ◌&&◌, ◌||◌, none, List, [], ◌∷◌, ◌++◌, leb, take, map, ◌==◌, if◌then◌else◌,
}
use grid_runner.Fallible.{Err, ok, duplicate, unique_violation}
use grid_runner.Exec.{Exec, pure, raise, choose, choose_at, handle}
use grid_runner.Models.{Job, JobStatus, queued, assigned, running}
use grid_runner.Store.{JobRow, Store, statement}
use grid_runner.Store.Rows.{order_rows}

-- `status IN ('QUEUED', 'ASSIGNED', 'RUNNING')`.
abbrev pub in_index : JobStatus → Bool
in_index queued = true
in_index assigned = true
in_index running = true
in_index _ = false

-- The unique index `jobs_active_unique`: two rows that it holds and that agree in its columns.
abbrev pub clashes : Job → Job → Bool
clashes a b =
    (in_index a.status && in_index b.status)
    && ((a.repository == b.repository)
        && ((a.commit_sha == b.commit_sha) && (a.event_type == b.event_type)))

-- A new row breaks the primary key or the index.
unfoldable pub violates : Job → List JobRow → Bool
violates j [] = false
violates j (r ∷ rs) = if (r.id == j.id) || clashes r.job j then true else violates j rs

-- The columns that the INSERT does not name get their defaults.
abbrev pub new_row : ℕ → Job → JobRow
new_row now j = record {
  job = record j {
    runner_id = none;
    attempts = 0;
    exit_code = none;
    error = "";
    created_at = now;
    started_at = none;
    completed_at = none;
  };
  logs = [];
  log_seq = 0;
}

unfoldable pub insert_job : Job → Exec Store (Unit {0})
insert_job j = statement (
    choose_at (λ s. violates j s.jobs) (raise unique_violation)
      (λ s. (ok tt, record s { jobs = s.jobs ++ new_row s.now j ∷ [] })))

abbrev pub is_unique_violation : Err → Bool
is_unique_violation unique_violation = true
is_unique_violation _ = false

unfoldable pub create_job : Job → Exec Store (Unit {0})
create_job j =
    handle (insert_job j) pure (λ e. choose (is_unique_violation e) (raise duplicate) (raise e))

-- ORDER BY created_at DESC LIMIT; rows of one moment come in any order, here as inserted.
unfoldable pub list_jobs : ℕ → Exec Store (List Job)
list_jobs limit = statement (λ s. (
  ok (
      take limit
        (map (λ (r : JobRow). r.job) (order_rows (λ a b. leb b.created_at a.created_at) s.jobs))),
  s,
))
