-- ===== src/System/Rescue.antt =====
-- A runner that has fallen silent: the reaper of internal/scheduler/service.go, and what becomes of its
-- job, when PostgreSQL and Redis do every request.
use grid_runner.Store.Columns.{takes_result}
use grid_runner.Prelude.{
  ℕ, ◌≡◌, refl, ◌∙◌, String, true, false, none, some, List, [], ◌∷◌, map, ◌==◌,
}
use grid_runner.Fallible.{Result, ok}
use grid_runner.Exec.{pure, choose, handle, ◌>>=◌}
use grid_runner.Models.{JobStatus, queued, offline, can_transition_to, Runner, parse_job_status}
use grid_runner.Scheduler.{eligible}
use grid_runner.Scheduler.Pick.{Among}
use grid_runner.Store.{JobRow, RunnerRow, statement, answer}
use grid_runner.Store.Rows.{find_row, update_rows, select_rows}
use grid_runner.Store.Statements.{job_has_id}
use grid_runner.Store.Jobs.{still, requeue_job}
use grid_runner.Store.Runners.{is_stale, coalesce, reap_offline_runners}
use grid_runner.Store.Candidates.{candidates, calm_store}
use grid_runner.Store.Changes.{
  job_status_eq_refl, transition-calm, released, release_of-calm, find_row-still,
}
use grid_runner.Queue.{Redis, pending_key, runner_key, enqueue, command, reply}
use grid_runner.Queue.Laws.{pending}
use grid_runner.World.{in_store, in_broker, ignore}
use grid_runner.World.Calm.{calm}
use grid_runner.Service.Rescued.{requeued_row}
use grid_runner.Service.{poll_queue, reap, rescue, rescue_all}
use grid_runner.Api.{Codec, Request, ResultRequest}
use grid_runner.Api.Jobs.{reported}
use grid_runner.System.Builds.{IsPlaced, poll_queue-IsPlaced, lpush-mailbox}

abbrev requeued_jobs : String → JobStatus → List JobRow → List JobRow
requeued_jobs id from jobs = update_rows (still id from) requeued_row jobs

-- The runners after a tick, and after the release of the one that had the job.
abbrev pub reaped : ℕ → ℕ → List RunnerRow → List RunnerRow
reaped now timeout runners =
    update_rows (is_stale now timeout)
      (λ r. record r { runner = record r.runner { status = offline; current_job_id = none } })
      runners

abbrev pub left_runners : String → ℕ → ℕ → List RunnerRow → List RunnerRow
left_runners runner_id now timeout runners = released runner_id (reaped now timeout runners)

requeue_job-calm :
    (id runner_id : String) (jobs : List JobRow) (runners : List RunnerRow) (now : ℕ) (row : JobRow)
    → find_row (job_has_id id) jobs ≡ some row
    → can_transition_to row.status queued ≡ true
    → row.runner_id ≡ some runner_id
    → requeue_job id (calm_store jobs runners now)
      ≡ (ok tt, calm_store (requeued_jobs id row.status jobs) (released runner_id runners) now)
unfolding requeue_job ◌>>=◌
requeue_job-calm id runner_id jobs runners now row found may held =
    rw (transition-calm id queued true _ jobs runners now row found may refl)
      (release_of-calm (record row.job { status = queued }) runner_id _ runners now held)

-- The runners that the tick finds silent, each with its job.
abbrev pub silent : ℕ → ℕ → List RunnerRow → List (String × String)
silent now timeout runners =
    map (λ (r : RunnerRow). (r.id, coalesce r.current_job_id))
      (select_rows (is_stale now timeout) runners)

module _ ⦃R : Redis⦄ where
  reap-calm :
      (timeout : ℕ) (id runner_id : String) (jobs : List JobRow) (runners : List RunnerRow)
      (now : ℕ) (d : R.Db) (row : JobRow)
      → silent now timeout runners ≡ (runner_id, id) ∷ []
      → (id == "") ≡ false
      → find_row (job_has_id id) jobs ≡ some row
      → can_transition_to row.status queued ≡ true
      → row.runner_id ≡ some runner_id
      → (reap timeout (calm jobs runners now d)).1
        ≡ calm
            (requeued_jobs id row.status jobs)
            (left_runners runner_id now timeout runners)
            now
            (R.lpush pending_key id d)
  unfolding reap rescue_all rescue ignore handle in_store in_broker reap_offline_runners statement
      answer enqueue command reply choose pure ◌>>=◌
  reap-calm timeout id runner_id jobs runners now d row alone named found may held =
      rw
        (
          alone,
          named,
          requeue_job-calm id runner_id jobs (reaped now timeout runners) now row found may held,
        )
        refl

  -- The job of a runner that has fallen silent is built by another one, when PostgreSQL and Redis do
  -- every request: if that runner is the only silent one and holds the job, ASSIGNED or RUNNING, the
  -- queue and the mailboxes of the idle runners with a fresh heartbeat are empty, and one of these is
  -- eligible, then after one tick of the reaper and one round of the scheduler an eligible one of them,
  -- over which none is to be preferred, gets the job when it polls, may start it, and a result whose
  -- exit code and error the columns INT and TEXT take is recorded: the row has then one attempt more, the new runner, and the status, exit code and error of
  -- the result. The handlers of the runner stand behind the check of its token.
  pub orphan_is_rebuilt :
      (C : Codec) (clone_token : String → Result String) (base : Request) (id runner_id : String)
      (req : ResultRequest) (to : JobStatus) (timeout : ℕ) (jobs : List JobRow)
      (runners : List RunnerRow) (now : ℕ) (d : R.Db) (row : JobRow) (fit : Runner)
      → silent now timeout runners ≡ (runner_id, id) ∷ []
      → (id == "") ≡ false
      → find_row (job_has_id id) jobs ≡ some row
      → can_transition_to row.status queued ≡ true
      → row.runner_id ≡ some runner_id
      → pending d ≡ []
      → ((x : Runner)
          → Among x (candidates timeout (left_runners runner_id now timeout runners) now)
          → R.list d (runner_key x.id) ≡ [])
      → Among fit (candidates timeout (left_runners runner_id now timeout runners) now)
      → eligible (requeued_row row).job fit ≡ true
      → C.decode_result 65536 base.body ≡ some req
      → reported (parse_job_status req.status) ≡ some to
      → takes_result req.exit_code req.error ≡ true
      → IsPlaced C clone_token base id
          (requeued_row row)
          req
          to
          now
          (candidates timeout (left_runners runner_id now timeout runners) now)
          (poll_queue timeout (reap timeout (calm jobs runners now d)).1).1
  orphan_is_rebuilt C clone_token base id runner_id req to timeout jobs runners now d row fit alone
        named found may held nothing_waits no_mail among fits decodes reports stored =
      let after =
        reap-calm timeout id runner_id jobs runners now d row alone named found may held in
      let there =
        find_row-still id row.status requeued_row jobs row (λ y. refl) found
          (job_status_eq_refl row.status) in
      let waiting : pending (R.lpush pending_key id d) ≡ id ∷ [] =
        simp (R.list-lpush, nothing_waits) in
      rw after (
        poll_queue-IsPlaced C clone_token base id (requeued_row row) req to timeout _ _ now _ fit
          waiting there refl (λ x listed. lpush-mailbox id x.id d ∙ no_mail x listed) among fits
          decodes reports stored)
