-- ===== src/Tests/Runs.antt =====
-- The theorems on runs, requests and data at concrete values.
use grid_runner.Store.Reaping.{IsAmong, IsListed, reap_offline_runners-once}
use grid_runner.Store.Runners.{is_stale, coalesce, reap_offline_runners}
use grid_runner.Store.Columns.{is_text_from}
use grid_runner.Prelude.{
  true, String, ◌≡◌, ◌≤◌, ◌++◌, ℕ, refl, some, List, [], ◌∷◌, arith, text_lt, Bool-cases, inl, inr,
  eq_iff, ◌==◌,
}
use grid_runner.Fallible.{ok}
use grid_runner.Models.{cancelled}
use grid_runner.Models.States.{◌⟶*◌}
use grid_runner.Scheduler.Pick.{Picked, schedule-Picked}
use grid_runner.Store.{Store, JobRow, RunnerRow, done, refused, lost}
use grid_runner.Store.Rows.{find_row}
use grid_runner.Store.Keys.{HasKeys}
use grid_runner.Store.Steps.{SameIdentity, RunnerLife}
use grid_runner.Store.History.{IsSound}
use grid_runner.Store.Statements.{job_has_id, runner_has_id}
use grid_runner.Store.LogAppends.{quiet_store, resent_chunk_counts_once}
use grid_runner.Store.Assignment.{IsAllOrNothing, assign_job-atomic}
use grid_runner.Store.Jobs.{append_logs, assign_job}
use grid_runner.JobSpec.{
  SpecJob, Spec, parse, checked, all_have_commands, set_names, lookup, least, first_by_name,
  primary,
}
use grid_runner.JobSpec.Choice.{IsPrimary, parse-primary}
use grid_runner.JobSpec.Entries.{SameEntries, primary-SameEntries}
use mathlib.Core.Option
use grid_runner.Api.Jobs.{handle_cancel_job}
use grid_runner.World.{World}
use grid_runner.World.Calm.{calm}
use grid_runner.System.{cancel, Run, here as start, next}
use grid_runner.System.Safety.{
  finished_stays, job_history, runner_history, run-IsSound, run-HasKeys,
}
use grid_runner.System.Logs.{chunk_of_new_attempt_lost}
use grid_runner.Tests.ListRedis.{list_redis}
use grid_runner.Tests.Values.{
  empty_lists, waiting_job, waiting_row, running_row, idle_runner, idle_row, busy_row,
  running_world, plain_codec, request,
}

-- A job that runs on r1 is cancelled, and is cancelled again.
abbrev cancelled_once : World
cancelled_once = (handle_cancel_job request running_world).1

abbrev cancelled_twice : World
cancelled_twice = (handle_cancel_job request cancelled_once).1

abbrev cancel_run : Run plain_codec running_world cancelled_twice
cancel_run = next (next start (cancel request)) (cancel request)

-- A world in which that job has ended.
abbrev ended_row : JobRow
ended_row = record running_row {
  job = record running_row.job { status = cancelled; completed_at = some 9 };
}

abbrev ended_world : World
ended_world = calm (ended_row ∷ []) (idle_row ∷ []) 9 empty_lists

abbrev ended_run : Run plain_codec ended_world (handle_cancel_job request ended_world).1
ended_run = next start (cancel request)

ended_found : find_row (job_has_id "j1") ended_world.store.jobs ≡ some ended_row
unfolding find_row
ended_found = refl

finished_stays_example :
    (u : JobRow) × (find_row (job_has_id "j1") (handle_cancel_job request ended_world).1.store.jobs
      ≡ some u)
    × (u.job ≡ ended_row.job)
finished_stays_example =
    finished_stays plain_codec ended_world (handle_cancel_job request ended_world).1 "j1" ended_row
      ended_run ended_found refl

running_found : find_row (job_has_id "j1") running_world.store.jobs ≡ some running_row
unfolding find_row
running_found = refl

job_history_example :
    (u : JobRow) × (find_row (job_has_id "j1") cancelled_twice.store.jobs ≡ some u)
    × SameIdentity running_row.job u.job
    × (running_row.status ⟶* u.status)
    × (running_row.attempts ≤ u.attempts)
    × ((new : List ℕ) × (u.logs ≡ running_row.logs ++ new))
job_history_example =
    job_history plain_codec running_world cancelled_twice "j1" running_row cancel_run running_found

busy_found : find_row (runner_has_id "r1") running_world.store.runners ≡ some busy_row
unfolding find_row
busy_found = refl

runner_history_example :
    (u : RunnerRow) × (find_row (runner_has_id "r1") cancelled_twice.store.runners ≡ some u)
    × (u.name ≡ busy_row.name)
    × (u.labels ≡ busy_row.labels)
    × (u.token_hash ≡ busy_row.token_hash)
    × RunnerLife busy_row.status u.status
runner_history_example =
    runner_history plain_codec running_world cancelled_twice "r1" busy_row cancel_run busy_found

running_world-IsSound : IsSound running_world.store
running_world-IsSound = record {
  jobs = (
    record {
      unowned = λ h. absurd (ground arith);
      assigned_owned = λ h. refl;
      running_owned = λ h. refl;
      running_started = λ h. refl;
      assigned_counted = λ h. omega arith;
      running_counted = λ h. omega arith;
      success_exit = λ h. absurd (ground arith);
      completed = refl;
    },
    tt,
  );
  runners = (record { holds = refl }, tt);
}

run-IsSound_example : IsSound cancelled_twice.store
run-IsSound_example =
    run-IsSound plain_codec running_world cancelled_twice cancel_run running_world-IsSound

run-HasKeys_example : HasKeys cancelled_twice.store.jobs
run-HasKeys_example = run-HasKeys plain_codec running_world cancelled_twice cancel_run (tt, tt)

chunk_of_new_attempt_lost_example :
    append_logs "j1" 1 (120 ∷ []) (
      quiet_store cancelled_twice.store.jobs cancelled_twice.store.runners
        cancelled_twice.store.now)
    ≡ (
      ok tt,
      quiet_store cancelled_twice.store.jobs cancelled_twice.store.runners
          cancelled_twice.store.now,
    )
unfolding is_text_from
chunk_of_new_attempt_lost_example =
    chunk_of_new_attempt_lost plain_codec running_world cancelled_twice "j1" running_row 1
      (120 ∷ []) cancel_run (tt, tt) running_found (omega arith) refl

resent_chunk_counts_once_example :
    let first =
      (append_logs "j1" 4
        (33 ∷ [])
        (record { jobs = running_row ∷ []; runners = []; now = 9; outcomes = lost ∷ [] })).1 in
    (append_logs "j1" 4 (33 ∷ []) (quiet_store first.jobs first.runners first.now)).1.jobs
    ≡ (append_logs "j1" 4 (33 ∷ []) (quiet_store (running_row ∷ []) [] 9)).1.jobs
resent_chunk_counts_once_example =
    resent_chunk_counts_once "j1" 4 (33 ∷ []) (running_row ∷ []) [] 9 (lost ∷ [])

-- The second statement of the transaction is refused.
abbrev failing_store : Store
failing_store = record {
  jobs = waiting_row ∷ [];
  runners = idle_row ∷ [];
  now = 9;
  outcomes = done ∷ done ∷ done ∷ refused ∷ [];
}

assign_job-atomic_example :
    IsAllOrNothing "j1" "r1" failing_store (assign_job "j1" "r1" failing_store).1
assign_job-atomic_example = assign_job-atomic "j1" "r1" failing_store

schedule-Picked_example : Picked waiting_job (idle_runner ∷ [])
schedule-Picked_example = schedule-Picked waiting_job (idle_runner ∷ [])

-- Two jobs, of which neither is named test.
abbrev two_jobs : Spec
two_jobs =
    (
      "zeta",
      record { name = ""; image = "alpine"; commands = "echo z" ∷ []; env = []; labels = [] },
    )
    ∷ (
      "alpha",
      record { name = ""; image = "alpine"; commands = "echo a" ∷ []; env = []; labels = [] },
    )
    ∷ []

two_jobs_parsed : parse (λ text. some two_jobs) [] ≡ ok (set_names two_jobs)
unfolding parse checked all_have_commands
two_jobs_parsed = refl

parse-primary_example :
    (j : SpecJob) × (primary (set_names two_jobs) ≡ some j) × IsPrimary (set_names two_jobs) j
parse-primary_example =
    parse-primary (λ text. some two_jobs) [] (set_names two_jobs) two_jobs_parsed

primary-two_jobs :
    (Option.map (λ (j : SpecJob). j.name) (primary (set_names two_jobs))) ≡ some "alpha"
unfolding primary set_names first_by_name lookup least text_lt
primary-two_jobs = refl

-- At moment 9 the busy runner, whose last heartbeat came at 0, has been silent for too long.
reap_offline_runners-once_example :
    let (r, s) = reap_offline_runners 0 (quiet_store (running_row ∷ []) (busy_row ∷ []) 9) in
    ((list : List (String × String)) × (r ≡ ok list)
      × ((x : RunnerRow)
          → IsAmong x (busy_row ∷ [])
          → is_stale 9 0 x ≡ true
          → IsListed x.id (coalesce x.current_job_id) list))
    × (s.jobs ≡ running_row ∷ [])
    × (reap_offline_runners 0 s ≡ (ok [], s))
reap_offline_runners-once_example = reap_offline_runners-once 0 (running_row ∷ []) (busy_row ∷ []) 9

-- The same two jobs, walked the other way round.
abbrev two_jobs_again : Spec
two_jobs_again =
    (
      "alpha",
      record { name = ""; image = "alpine"; commands = "echo a" ∷ []; env = []; labels = [] },
    )
    ∷ (
      "zeta",
      record { name = ""; image = "alpine"; commands = "echo z" ∷ []; env = []; labels = [] },
    )
    ∷ []

two_jobs-SameEntries : SameEntries two_jobs two_jobs_again
unfolding lookup
two_jobs-SameEntries k = elim (Bool-cases ("zeta" == k)) [
  | inl hit ↦ let same : "zeta" ≡ k = (eq_iff "zeta" k).0 hit in rw (← same) refl
  | inr miss ↦ rw miss refl
]

primary-SameEntries_example : primary two_jobs ≡ primary two_jobs_again
primary-SameEntries_example = primary-SameEntries two_jobs two_jobs_again two_jobs-SameEntries
