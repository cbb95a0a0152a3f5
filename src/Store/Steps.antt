-- ===== src/Store/Steps.antt =====
-- What one row of `jobs` or `runners` may become, and which rows make sense.
use grid_runner.Prelude.{
  ℕ, ◌≤◌, ◌<◌, ◌≡◌, refl, sym, ◌∙◌, ap, Bool, true, false, Option, none, some, List, [], ◌++◌,
  arith,
}
use mathlib.Core.List.{append-nil, append_assoc}
use grid_runner.Models.{
  Job, Runner, RunnerStatus, queued, assigned, running, success, busy, runner_status_eq,
  runner_can_transition_to, terminal,
}
use grid_runner.Models.States.{◌⟶*◌, here, ⟶*-trans, terminal-⟶*}
use grid_runner.Store.{JobRow, RunnerRow}

abbrev pub has : {A : Type 0} → Option A → Bool
has none = false
has (some a) = true

-- The columns of a job that fit its status.
pub record IsSoundJob (j : Job) : Type 0 where
  pub unowned : j.status ≡ queued → j.runner_id ≡ none
  pub assigned_owned : j.status ≡ assigned → has j.runner_id ≡ true
  pub running_owned : j.status ≡ running → has j.runner_id ≡ true
  pub running_started : j.status ≡ running → has j.started_at ≡ true
  pub assigned_counted : j.status ≡ assigned → 0 < j.attempts
  pub running_counted : j.status ≡ running → 0 < j.attempts
  pub success_exit : j.status ≡ success → has j.exit_code ≡ true
  pub completed : has j.completed_at ≡ terminal j.status

-- The columns that no statement writes after the INSERT.
pub record SameIdentity (j k : Job) : Type 0 where
  pub id : k.id ≡ j.id
  pub repository : k.repository ≡ j.repository
  pub clone_url : k.clone_url ≡ j.clone_url
  pub commit_sha : k.commit_sha ≡ j.commit_sha
  pub branch : k.branch ≡ j.branch
  pub event_type : k.event_type ≡ j.event_type
  pub config_ref : k.config_ref ≡ j.config_ref
  pub labels : k.labels ≡ j.labels
  pub created_at : k.created_at ≡ j.created_at

-- One job row at an earlier and a later moment.
pub record JobStep (r t : JobRow) : Type 0 where
  pub identity : SameIdentity r.job t.job
  pub life : r.status ⟶* t.status
  pub frozen : terminal r.status ≡ true → t.job ≡ r.job
  pub counted : r.attempts ≤ t.attempts
  pub log_order : r.log_seq ≤ t.log_seq
  pub log_kept : (new : List ℕ) × (t.logs ≡ r.logs ++ new)
  pub sound : IsSoundJob r.job → IsSoundJob t.job

SameIdentity-refl : (j : Job) → SameIdentity j j
SameIdentity-refl j = ground arith

SameIdentity-trans : (j k l : Job) → SameIdentity j k → SameIdentity k l → SameIdentity j l
SameIdentity-trans j k l p q = ground arith

pub JobStep-refl : (r : JobRow) → JobStep r r
JobStep-refl r = record {
  identity = SameIdentity-refl r.job;
  life = here;
  frozen = λ _. refl;
  counted = omega arith;
  log_order = omega arith;
  log_kept = ([], sym (append-nil r.logs));
  sound = λ h. h;
}

pub JobStep-trans : (r t u : JobRow) → JobStep r t → JobStep t u → JobStep r u
JobStep-trans r t u p q = record {
  identity = SameIdentity-trans r.job t.job u.job p.identity q.identity;
  life = ⟶*-trans p.life q.life;
  frozen = λ h. q.frozen (rw (← terminal-⟶* p.life h) h) ∙ p.frozen h;
  counted = omega (arith, p.counted, q.counted);
  log_order = omega (arith, p.log_order, q.log_order);
  log_kept = (
    p.log_kept.0 ++ q.log_kept.0,
    q.log_kept.1
        ∙ ap (λ l. l ++ q.log_kept.0) p.log_kept.1
        ∙ append_assoc r.logs p.log_kept.0 q.log_kept.0,
  );
  sound = λ h. q.sound (p.sound h);
}

-- The life of a runner: any number of changes that `runnerTransitions` lists.
pub data RunnerLife : RunnerStatus → RunnerStatus → Type 0 where
  same : {s : RunnerStatus} → RunnerLife s s
  moves :
      {s t u : RunnerStatus} → runner_can_transition_to s t ≡ true → RunnerLife t u → RunnerLife s u

RunnerLife-trans : {s t u : RunnerStatus} → RunnerLife s t → RunnerLife t u → RunnerLife s u
RunnerLife-trans same q = q
RunnerLife-trans (moves e p) q = moves e (RunnerLife-trans p q)

-- A runner holds a job exactly while it is BUSY.
pub record IsSoundRunner (r : Runner) : Type 0 where
  pub holds : has r.current_job_id ≡ runner_status_eq r.status busy

pub record RunnerStep (r t : RunnerRow) : Type 0 where
  pub id : t.id ≡ r.id
  pub name : t.name ≡ r.name
  pub labels : t.labels ≡ r.labels
  pub token_hash : t.token_hash ≡ r.token_hash
  pub life : RunnerLife r.status t.status
  pub sound : IsSoundRunner r.runner → IsSoundRunner t.runner

pub RunnerStep-refl : (r : RunnerRow) → RunnerStep r r
RunnerStep-refl r = record {
  id = refl;
  name = refl;
  labels = refl;
  token_hash = refl;
  life = same;
  sound = λ h. h;
}

pub RunnerStep-trans : (r t u : RunnerRow) → RunnerStep r t → RunnerStep t u → RunnerStep r u
RunnerStep-trans r t u p q = record {
  id = q.id ∙ p.id;
  name = q.name ∙ p.name;
  labels = q.labels ∙ p.labels;
  token_hash = q.token_hash ∙ p.token_hash;
  life = RunnerLife-trans p.life q.life;
  sound = λ h. q.sound (p.sound h);
}
