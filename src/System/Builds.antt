-- ===== src/System/Builds.antt =====
-- A job from the queue to its result: one round of internal/scheduler, and the requests of the runner
-- that gets it, when PostgreSQL and Redis do every request.
use grid_runner.Store.Columns.{takes_result}
use grid_runner.Prelude.{ℕ, ◌≡◌, refl, ap, ◌∙◌, String, true, false, some, List, [], ◌∷◌}
use grid_runner.Fallible.{Result, ok}
use grid_runner.Models.{JobStatus, queued, assigned, Runner, parse_job_status}
use grid_runner.Scheduler.{eligible}
use grid_runner.Scheduler.Pick.{Among, IsUnbeaten}
use grid_runner.Store.{JobRow, RunnerRow}
use grid_runner.Store.Rows.{find_row}
use grid_runner.Store.Statements.{job_has_id}
use grid_runner.Store.Jobs.{take_row}
use grid_runner.Store.Candidates.{queued_eq, candidates}
use grid_runner.Store.Changes.{find_row-still}
use grid_runner.Queue.{Redis, pending_key, runner_key}
use grid_runner.Queue.Keys.{runner_key-ne-pending}
use grid_runner.Queue.Laws.{pending}
use grid_runner.World.{World}
use grid_runner.World.Calm.{calm}
use grid_runner.Service.{poll_queue}
use grid_runner.Service.Rounds.{eq_flip}
use grid_runner.Service.Progress.{poll_queue-IsDelivered}
use grid_runner.Api.{Codec, Request, ResultRequest, write, status, delivery}
use grid_runner.Api.Jobs.{reported, status_text, handle_job_start, handle_job_result}
use grid_runner.Api.Runners.{token_or_empty, handle_poll_job}
use grid_runner.Api.Starts.{started_row, started_jobs, handle_poll_job-calm, handle_job_start-calm}
use grid_runner.Api.Results.{with_result, handle_job_result-IsRecorded}

-- The requests of a runner about a job; what else they carry is in `base`.
abbrev pub poll_by : Request → Runner → Request
poll_by base x = record base { path_id = x.id }

abbrev pub about_job : Request → String → Runner → Request
about_job base id x = record base { path_id = id; runner_id = x.id }

module _ ⦃R : Redis⦄ where
  -- The runner `x` polls, starts the job and reports `req`: the answers, and the row at the end.
  abbrev pub IsBuilt :
      Codec
      → (String → Result String)
      → Request
      → String
      → JobRow
      → ResultRequest
      → JobStatus
      → ℕ
      → Runner
      → World
      → Type 0
  IsBuilt C clone_token base id row req to now x w =
      let (a, u) = handle_poll_job clone_token false (poll_by base x) w in
      let (b, v) = handle_job_start (about_job base id x) u in
      let (c, z) = handle_job_result C (about_job base id x) v in
      (a
        ≡ ok (
            write 200
              (delivery (take_row x.id row).job (token_or_empty (clone_token row.repository)))))
      × (b ≡ ok (write 200 (status "RUNNING")))
      × (c ≡ ok (write 200 (status (status_text to))))
      × (find_row (job_has_id id) z.store.jobs
          ≡ some (with_result to req.exit_code req.error now (started_row now (take_row x.id row))))

  assigned-IsBuilt :
      (C : Codec) (clone_token : String → Result String) (base : Request) (id : String)
      (row : JobRow) (req : ResultRequest) (to : JobStatus) (jobs : List JobRow)
      (runners : List RunnerRow) (now : ℕ) (d : R.Db) (x : Runner)
      → find_row (job_has_id id) jobs ≡ some (take_row x.id row)
      → R.list d (runner_key x.id) ≡ id ∷ []
      → C.decode_result 65536 base.body ≡ some req
      → reported (parse_job_status req.status) ≡ some to
      → takes_result req.exit_code req.error ≡ true
      → IsBuilt C clone_token base id row req to now x (calm jobs runners now d)
  assigned-IsBuilt C clone_token base id row req to jobs runners now d x found mail decodes may
        stored =
      let taken = take_row x.id row in
      let (d', polled, lists) =
        handle_poll_job-calm clone_token false (poll_by base x) id [] jobs runners now d taken mail
          found in
      let begun =
        handle_job_start-calm (about_job base id x) jobs runners now d' taken found refl refl in
      let there = find_row-still id assigned (started_row now) jobs taken (λ r. refl) found refl in
      let (answered, stored, recorded) =
        handle_job_result-IsRecorded C (about_job base id x) req to
          (started_jobs id assigned now jobs) runners now d' (started_row now taken) there refl refl
          decodes may stored in
      rw (polled, begun) (refl, refl, answered, recorded)

  -- A runner of the list, which is eligible and over which none is to be preferred, does so.
  abbrev pub IsPlaced :
      Codec
      → (String → Result String)
      → Request
      → String
      → JobRow
      → ResultRequest
      → JobStatus
      → ℕ
      → List Runner
      → World
      → Type 0
  IsPlaced C clone_token base id row req to now cs w =
      (x : Runner) × Among x cs
      × (eligible row.job x ≡ true)
      × IsUnbeaten row.job x cs
      × IsBuilt C clone_token base id row req to now x w

  pub poll_queue-IsPlaced :
      (C : Codec) (clone_token : String → Result String) (base : Request) (id : String)
      (row : JobRow) (req : ResultRequest) (to : JobStatus) (heartbeat : ℕ) (jobs : List JobRow)
      (runners : List RunnerRow) (now : ℕ) (d : R.Db) (fit : Runner)
      → pending d ≡ id ∷ []
      → find_row (job_has_id id) jobs ≡ some row
      → row.status ≡ queued
      → ((x : Runner)
          → Among x (candidates heartbeat runners now)
          → R.list d (runner_key x.id) ≡ [])
      → Among fit (candidates heartbeat runners now)
      → eligible row.job fit ≡ true
      → C.decode_result 65536 base.body ≡ some req
      → reported (parse_job_status req.status) ≡ some to
      → takes_result req.exit_code req.error ≡ true
      → IsPlaced C clone_token base id row req to now
          (candidates heartbeat runners now)
          (poll_queue heartbeat (calm jobs runners now d)).1
  poll_queue-IsPlaced C clone_token base id row req to heartbeat jobs runners now d fit waiting
        found waits no_mail among fits decodes may stored =
      let (x, d', there, good, unbeaten, round, mail, rest) =
        poll_queue-IsDelivered heartbeat id [] jobs runners now row fit d waiting found waits among
          fits in
      let mailed : R.list d' (runner_key x.id) ≡ id ∷ [] =
        mail ∙ ap (λ l. id ∷ l) (no_mail x there) in
      let taken =
        find_row-still id queued (take_row x.id) jobs row (λ r. refl) found
          (queued_eq row.status waits) in
      (
        x,
        there,
        good,
        unbeaten,
        rw round (
            assigned-IsBuilt C clone_token base id row req to _ _ now d' x taken mailed decodes may
              stored),
      )

  -- An id that is pushed to the queue touches no mailbox.
  pub lpush-mailbox :
      (id runner_id : String) (d : R.Db)
      → R.list (R.lpush pending_key id d) (runner_key runner_id) ≡ R.list d (runner_key runner_id)
  lpush-mailbox id runner_id d = simp (R.list-lpush, eq_flip _ _ (runner_key-ne-pending runner_id))
