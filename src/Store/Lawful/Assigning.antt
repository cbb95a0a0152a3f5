-- ===== src/Store/Lawful/Assigning.antt =====
-- AssignJob is lawful.
use grid_runner.Prelude.{ℕ, ◌≡◌, refl, String, true, false, not, ◌&&◌, arith}
use grid_runner.Fallible.{invalid_transition}
use grid_runner.Exec.Always.{
  Always, Always-raise, Always-bind, Always-choose, Always-test, always_rules,
}
use grid_runner.Models.{JobStatus, assigned, can_transition_to, runner_status_eq, idle}
use grid_runner.Store.{JobRow, RunnerRow}
use grid_runner.Store.Steps.{JobStep, JobStep-refl, RunnerStep-refl, RunnerLife, RunnerStep}
use grid_runner.Store.Grown.{Grown-refl, Grown-update_rows}
use grid_runner.Store.Keys.{HasKeys-update_rows}
use grid_runner.Store.Statements.{runner_has_id}
use grid_runner.Store.Jobs.{still, take_row, occupy, assign_row, assign_statements, assign_job}
use grid_runner.Store.Lawful.{
  FreshJob, FreshRunner, Lawful, Lawful-preorder, Always-statement, Always-transaction,
  Always-update_runners,
}
use grid_runner.Store.Lawful.JobMethods.{JobStep_of_change, same_status, Always-get_job}

-- The transaction of AssignJob: each of its statements is lawful by itself.
taken_step :
    (runner_id : String) (r : JobRow)
    → can_transition_to r.status assigned ≡ true
    → JobStep r (take_row runner_id r)
taken_step runner_id r e =
    JobStep_of_change _ _ e (ground arith) (omega arith) refl refl (λ h. ground arith)

occupied_step :
    (job_id runner_id : String) (now : ℕ) (r : RunnerRow)
    → (runner_has_id runner_id r && runner_status_eq r.status idle) ≡ true
    → RunnerStep r (occupy job_id runner_id now r)
occupied_step job_id runner_id now r passes = record {
  id = refl;
  name = refl;
  labels = refl;
  token_hash = refl;
  life = RunnerLife.moves (ground arith) RunnerLife.same;
  sound = λ h. ground arith;
}

Always-assign_statements :
    (job_id runner_id : String) (status : JobStatus)
    → not (can_transition_to status assigned) ≡ false
    → Always Lawful (assign_statements job_id runner_id status)
unfolding assign_statements assign_row
Always-assign_statements job_id runner_id status allowed =
    Always-bind _ _ Lawful-preorder
      (Always-statement _ (
        Always-test _ _ _ (λ s _. (Always-raise Lawful-preorder _).at s)
          (λ s _. record {
            jobs =
                Grown-update_rows JobStep FreshJob JobStep-refl (still job_id status)
                  (take_row runner_id)
                  (λ r passes.
                    taken_step runner_id r (same_status job_id r status assigned passes allowed))
                  s.jobs;
            runners = Grown-refl RunnerStep FreshRunner RunnerStep-refl s.runners;
            keys =
                HasKeys-update_rows (still job_id status) (take_row runner_id)
                  (λ r passes.
                    taken_step runner_id r (same_status job_id r status assigned passes allowed))
                  s.jobs;
          })))
      (λ affected.
        Always-choose _ _ _ (λ _. Always-raise Lawful-preorder invalid_transition)
          (λ _.
            Always-bind _ _ Lawful-preorder
              (Always-update_runners _ _ (occupied_step job_id runner_id))
              (λ taken. search (always_rules, Lawful-preorder))))

pub Always-assign_job : (job_id runner_id : String) → Always Lawful (assign_job job_id runner_id)
unfolding assign_job
Always-assign_job job_id runner_id = Always-bind _ _ Lawful-preorder (Always-get_job job_id) λ job.
    Always-choose _ _ _ (λ _. Always-raise Lawful-preorder invalid_transition)
      (λ allowed.
        Always-transaction _ (Always-assign_statements job_id runner_id job.status allowed))
