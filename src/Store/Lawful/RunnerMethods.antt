-- ===== src/Store/Lawful/RunnerMethods.antt =====
-- The methods over `runners` are lawful.
use grid_runner.Prelude.{ℕ, ◌≡◌, refl, String, true, none, arith}
use grid_runner.Fallible.{unique_violation}
use grid_runner.Exec.Always.{Always, Always-raise, Always-bind, Always-test, always_rules}
use grid_runner.Models.{Runner, RunnerStatus, idle, busy, offline, draining}
use grid_runner.Store.{RunnerRow}
use grid_runner.Store.Steps.{
  IsSoundRunner, JobStep, JobStep-refl, RunnerLife, RunnerStep, RunnerStep-refl,
}
use grid_runner.Store.Grown.{Grown-append, Grown-refl, Grown-update_rows}
use grid_runner.Store.Runners.{
  new_runner_row, register_runner, heartbeat, revive, reap_offline_runners, is_stale, idle_runners,
  runner_token_hash,
}
use grid_runner.Store.Lawful.{
  Lawful, Lawful-preorder, FreshJob, FreshRunner, Always-statement, Always-select,
  Always-update_runners,
}

new_runner_row-IsSoundRunner :
    (now : ℕ) (r : Runner) (token_hash : String)
    → IsSoundRunner (new_runner_row now r token_hash).runner
new_runner_row-IsSoundRunner now r token_hash = record { holds = refl }

pub Always-register_runner :
    (r : Runner) (token_hash : String) → Always Lawful (register_runner r token_hash)
unfolding register_runner
Always-register_runner r token_hash = Always-statement _ (
    Always-test _ _ _ (λ s _. (Always-raise Lawful-preorder unique_violation).at s)
      (λ s _. record {
        jobs = Grown-refl JobStep FreshJob JobStep-refl s.jobs;
        runners =
            Grown-append RunnerStep FreshRunner RunnerStep-refl s.runners _
              (new_runner_row-IsSoundRunner s.now r token_hash, tt);
        keys = λ h. h;
      }))

revive_life : (status : RunnerStatus) → RunnerLife status (revive status)
revive_life idle = RunnerLife.same
revive_life busy = RunnerLife.same
revive_life offline = RunnerLife.moves refl RunnerLife.same
revive_life draining = RunnerLife.same

revived :
    (now : ℕ) (r : RunnerRow)
    → RunnerStep r
        (record r { runner = record r.runner { last_heartbeat = now; status = revive r.status } })
revived now r = record {
  id = refl;
  name = refl;
  labels = refl;
  token_hash = refl;
  life = revive_life r.status;
  sound = λ h. ground arith;
}

pub Always-heartbeat : (id : String) → Always Lawful (heartbeat id)
unfolding heartbeat
Always-heartbeat id =
    Always-bind _ _ Lawful-preorder (Always-update_runners _ _ (λ now r _. revived now r))
      (λ affected. search (always_rules, Lawful-preorder))

reaped :
    (now timeout : ℕ) (r : RunnerRow)
    → is_stale now timeout r ≡ true
    → RunnerStep r
        (record r { runner = record r.runner { status = offline; current_job_id = none } })
reaped now timeout r passes = record {
  id = refl;
  name = refl;
  labels = refl;
  token_hash = refl;
  life = RunnerLife.moves (ground arith) RunnerLife.same;
  sound = λ h. ground arith;
}

pub Always-reap_offline_runners : (timeout : ℕ) → Always Lawful (reap_offline_runners timeout)
unfolding reap_offline_runners
Always-reap_offline_runners timeout = Always-statement _ (record {
  at = λ s. record {
    jobs = Grown-refl JobStep FreshJob JobStep-refl s.jobs;
    runners =
        Grown-update_rows RunnerStep FreshRunner RunnerStep-refl (is_stale s.now timeout) _
          (reaped s.now timeout) s.runners;
    keys = λ h. h;
  };
})

pub Always-idle_runners : (timeout : ℕ) → Always Lawful (idle_runners timeout)
unfolding idle_runners
Always-idle_runners timeout = Always-select _

pub Always-runner_token_hash : (id : String) → Always Lawful (runner_token_hash id)
unfolding runner_token_hash
Always-runner_token_hash id = Always-select _
