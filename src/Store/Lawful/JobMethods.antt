-- ===== src/Store/Lawful/JobMethods.antt =====
-- The methods over `jobs` are lawful.
use mathlib.Core.List.{append-nil}
use grid_runner.Prelude.{
  Bool, ℕ, ◌≤◌, ◌≡◌, refl, sym, ◌∙◌, String, ℤ, true, false, not, ◌&&◌, none, some, List, [], ◌++◌,
  arith, ltb,
}
use grid_runner.Fallible.{invalid_transition, out_of_range}
use grid_runner.Exec.Always.{
  Always, Always-pure, Always-raise, Always-bind, Always-handle, Always-choose, Always-test,
  Always-from_option, always_rules,
}
use grid_runner.Models.{
  Job, JobStatus, queued, running, cancelled, can_transition_to, terminal, runner_status_eq, idle,
  busy,
}
use grid_runner.Models.States.{here, ⟶*-step}
use grid_runner.Store.{JobRow, RunnerRow}
use grid_runner.Store.Steps.{
  IsSoundJob, SameIdentity, JobStep, JobStep-refl, RunnerStep-refl, RunnerLife, RunnerStep,
}
use grid_runner.Store.Grown.{Grown-append, Grown-refl}
use grid_runner.Store.Keys.{HasKeys-insert}
use grid_runner.Store.Statements.{job_has_id, runner_has_id, get_job}
use grid_runner.Store.Creation.{insert_job, create_job, new_row}
use grid_runner.Store.Jobs.{
  set_status, still, transition, release_runner, release_of, start_job, complete_job, requeue_job,
  cancel_job, append_logs,
}
use grid_runner.Store.Lawful.{
  FreshJob, FreshRunner, Lawful, Lawful-preorder, Always-statement, Always-select,
  Always-update_jobs, Always-update_runners,
}

-- A row that changes its status as the state machine allows, and keeps its log.
pub JobStep_of_change :
    (r t : JobRow)
    → can_transition_to r.status t.status ≡ true
    → SameIdentity r.job t.job
    → r.attempts ≤ t.attempts
    → t.log_seq ≡ r.log_seq
    → t.logs ≡ r.logs
    → (IsSoundJob r.job → IsSoundJob t.job)
    → JobStep r t
JobStep_of_change r t e identity counted order kept sound = record {
  identity = identity;
  life = ⟶*-step e;
  frozen = λ h. absurd (ground arith);
  counted = counted;
  log_order = omega arith;
  log_kept = ([], kept ∙ sym (append-nil r.logs));
  sound = sound;
}

-- The guard of the UPDATE makes the status that was read the status that is changed.
pub same_status :
    (id : String) (r : JobRow) (status to : JobStatus)
    → still id status r ≡ true
    → not (can_transition_to status to) ≡ false
    → can_transition_to r.status to ≡ true
same_status id r status to h e = ground arith

pub Always-get_job : (id : String) → Always Lawful (get_job id)
unfolding get_job
Always-get_job id = Always-select _

Always-transition :
    (id : String) (to : JobStatus) (takes : Bool) (extra : ℕ → JobRow → JobRow)
    → ((now : ℕ) (r : JobRow)
        → can_transition_to r.status to ≡ true
        → JobStep r (extra now (set_status to r)))
    → Always Lawful (transition id to takes extra)
unfolding transition
Always-transition id to takes extra step =
    Always-bind _ _ Lawful-preorder (Always-get_job id) λ job.
      Always-choose _ _ _ (λ _. Always-raise Lawful-preorder invalid_transition)
        (λ allowed.
          Always-choose _ _ _ (λ _. Always-raise Lawful-preorder out_of_range)
            (λ _.
              Always-bind _ _ Lawful-preorder
                (Always-update_jobs _ _
                  (λ now r passes. step now r (same_status id r job.status to passes allowed)))
                (λ affected. search (always_rules, Lawful-preorder))))

freed :
    (id : String) (r : RunnerRow)
    → (runner_has_id id r && runner_status_eq r.status busy) ≡ true
    → RunnerStep r (record r { runner = record r.runner { status = idle; current_job_id = none } })
freed id r passes = record {
  id = refl;
  name = refl;
  labels = refl;
  token_hash = refl;
  life = RunnerLife.moves (ground arith) RunnerLife.same;
  sound = λ h. ground arith;
}

Always-release_runner : (id : String) → Always Lawful (release_runner id)
unfolding release_runner
Always-release_runner id =
    Always-bind _ _ Lawful-preorder (Always-update_runners _ _ (λ now r passes. freed id r passes))
      (λ affected. Always-pure Lawful-preorder tt)

pub Always-release_of : (j : Job) → Always Lawful (release_of j)
unfolding release_of
Always-release_of j =
    Always-from_option j.runner_id _ _ (Always-pure Lawful-preorder tt) Always-release_runner

started :
    (now : ℕ) (r : JobRow)
    → can_transition_to r.status running ≡ true
    → JobStep r (record (set_status running r) {
      job = record (set_status running r).job { started_at = some now };
    })
started now r e = JobStep_of_change _ _ e (ground arith) (omega arith) refl refl (λ h. ground arith)

pub Always-start_job : (id : String) → Always Lawful (start_job id)
unfolding start_job
Always-start_job id =
    Always-bind _ _ Lawful-preorder (Always-transition id running _ _ started)
      (λ job. Always-pure Lawful-preorder tt)

completed_step :
    (status : JobStatus) (exit_code : ℤ) (err_msg : String)
    → terminal status ≡ true
    → (now : ℕ) (r : JobRow) → can_transition_to r.status status ≡ true
    → JobStep r (record (set_status status r) {
      job = record (set_status status r).job {
        exit_code = some exit_code;
        error = err_msg;
        completed_at = some now;
      };
    })
completed_step status exit_code err_msg final now r e =
    JobStep_of_change _ _ e (ground arith) (omega arith) refl refl (λ h. ground arith)

pub Always-complete_job :
    (id : String) (status : JobStatus) (exit_code : ℤ) (err_msg : String)
    → terminal status ≡ true
    → Always Lawful (complete_job id status exit_code err_msg)
unfolding complete_job
Always-complete_job id status exit_code err_msg final =
    Always-bind _ _ Lawful-preorder
      (Always-transition id status _ _ (completed_step status exit_code err_msg final))
      Always-release_of

requeued_step :
    (now : ℕ) (r : JobRow)
    → can_transition_to r.status queued ≡ true
    → JobStep r (record (set_status queued r) {
      job = record (set_status queued r).job { runner_id = none; started_at = none };
    })
requeued_step now r e =
    JobStep_of_change _ _ e (ground arith) (omega arith) refl refl (λ h. ground arith)

pub Always-requeue_job : (id : String) → Always Lawful (requeue_job id)
unfolding requeue_job
Always-requeue_job id =
    Always-bind _ _ Lawful-preorder (Always-transition id queued _ _ requeued_step)
      Always-release_of

cancelled_step :
    (now : ℕ) (r : JobRow)
    → can_transition_to r.status cancelled ≡ true
    → JobStep r (record (set_status cancelled r) {
      job = record (set_status cancelled r).job { completed_at = some now };
    })
cancelled_step now r e =
    JobStep_of_change _ _ e (ground arith) (omega arith) refl refl (λ h. ground arith)

pub Always-cancel_job : (id : String) → Always Lawful (cancel_job id)
unfolding cancel_job
Always-cancel_job id =
    Always-bind _ _ Lawful-preorder (Always-transition id cancelled _ _ cancelled_step)
      Always-release_of

appended :
    (id : String) (seq : ℕ) (chunk : List ℕ) (now : ℕ) (r : JobRow)
    → (job_has_id id r && ltb r.log_seq seq) ≡ true
    → JobStep r (record r { logs = r.logs ++ chunk; log_seq = seq })
appended id seq chunk now r passes = record {
  identity = ground arith;
  life = here;
  frozen = λ h. refl;
  counted = omega arith;
  log_order = ground arith;
  log_kept = (chunk, refl);
  sound = λ h. h;
}

pub Always-append_logs :
    (id : String) (seq : ℕ) (chunk : List ℕ) → Always Lawful (append_logs id seq chunk)
unfolding append_logs
Always-append_logs id seq chunk =
    Always-choose _ _ _ (λ _. Always-raise Lawful-preorder out_of_range)
      (λ _.
        Always-bind _ _ Lawful-preorder (Always-update_jobs _ _ (appended id seq chunk))
          (λ affected.
            Always-choose _ _ _ (λ _. Always-pure Lawful-preorder tt)
              (λ _.
                Always-bind _ _ Lawful-preorder (Always-select _)
                  (λ current. Always-pure Lawful-preorder tt))))

new_row-IsSoundJob : (now : ℕ) (j : Job) → j.status ≡ queued → IsSoundJob (new_row now j).job
new_row-IsSoundJob now j fresh = ground arith

-- A new row has the defaults of its columns, which fit the status QUEUED.
pub Always-create_job : (j : Job) → j.status ≡ queued → Always Lawful (create_job j)
unfolding create_job insert_job
Always-create_job j fresh =
    Always-handle _ _ _ Lawful-preorder
      (Always-statement _ (
        Always-test _ _ _ (λ s _. (Always-raise Lawful-preorder _).at s)
          (λ s clear. record {
            jobs =
                Grown-append JobStep FreshJob JobStep-refl s.jobs _
                  (new_row-IsSoundJob s.now j fresh, tt);
            runners = Grown-refl RunnerStep FreshRunner RunnerStep-refl s.runners;
            keys = HasKeys-insert s.now j s.jobs clear;
          })))
      (λ _. Always-pure Lawful-preorder _) (λ e. search (always_rules, Lawful-preorder))
