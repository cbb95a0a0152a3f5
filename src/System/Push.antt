-- ===== src/System/Push.antt =====
-- A push, from its webhook to its result: internal/api and internal/scheduler together, when
-- PostgreSQL and Redis do every request.
use grid_runner.Store.Columns.{takes_result}
use grid_runner.Prelude.{ℕ, ◌≡◌, refl, ◌∙◌, String, true, false, some, List, [], ◌∷◌, ◌++◌, eq_refl}
use grid_runner.Fallible.{Result}
use grid_runner.Models.{JobStatus, Runner, parse_job_status}
use grid_runner.Scheduler.{eligible}
use grid_runner.Scheduler.Pick.{Among}
use grid_runner.Github.{Event}
use grid_runner.Store.{JobRow, RunnerRow}
use grid_runner.Store.Creation.{violates, new_row}
use grid_runner.Store.Candidates.{candidates}
use grid_runner.Queue.{Redis, pending_key, runner_key}
use grid_runner.Queue.Laws.{pending}
use grid_runner.World.Calm.{calm}
use grid_runner.Service.{poll_queue}
use grid_runner.Api.{Codec, Request, ResultRequest}
use grid_runner.Api.Jobs.{reported}
use grid_runner.Api.Webhook.{job_of_event, handle_webhook}
use grid_runner.Api.Undelivered.{find_row-inserted}
use grid_runner.Api.Deliveries.{IsGenuine, handle_webhook-genuine, queue_job-calm}
use grid_runner.System.Builds.{IsPlaced, poll_queue-IsPlaced, lpush-mailbox}

module _ ⦃R : Redis⦄ where
  -- A signed push gets built, when PostgreSQL and Redis do every request: if no unfinished job stands
  -- for the event, the queue and the mailboxes of the idle runners with a fresh heartbeat are empty,
  -- and one of those runners is eligible, then after the webhook and one round of the scheduler an
  -- eligible one of them, over which none is to be preferred, gets the job when it polls, may start
  -- it, and a result whose exit code and error the columns INT and TEXT take is recorded: the row that the webhook made has then one attempt, that runner,
  -- and the status, exit code and error of the result. The handlers of the runner stand behind the
  -- check of its token.
  pub push_is_built :
      (C : Codec) (secret : String) (clone_token : String → Result String) (hook base : Request)
      (id : String) (e : Event) (req : ResultRequest) (to : JobStatus) (heartbeat : ℕ)
      (jobs : List JobRow) (runners : List RunnerRow) (now : ℕ) (d : R.Db) (fit : Runner)
      → IsGenuine C secret hook e
      → violates (job_of_event id e) jobs ≡ false
      → pending d ≡ []
      → ((x : Runner)
          → Among x (candidates heartbeat runners now)
          → R.list d (runner_key x.id) ≡ [])
      → Among fit (candidates heartbeat runners now)
      → eligible (new_row now (job_of_event id e)).job fit ≡ true
      → C.decode_result 65536 base.body ≡ some req
      → reported (parse_job_status req.status) ≡ some to
      → takes_result req.exit_code req.error ≡ true
      → IsPlaced C clone_token base id
          (new_row now (job_of_event id e))
          req
          to
          now
          (candidates heartbeat runners now)
          (poll_queue heartbeat (handle_webhook C secret id hook (calm jobs runners now d)).1).1
  push_is_built C secret clone_token hook base id e req to heartbeat jobs runners now d fit genuine
        new nothing_waits no_mail among fits decodes may stored =
      let row = new_row now (job_of_event id e) in
      let hooked =
        handle_webhook-genuine C secret id hook e _ genuine
        ∙ queue_job-calm id e jobs runners now d new in
      let d' = R.lpush pending_key id d in
      let found = find_row-inserted (job_of_event id e) row jobs new (eq_refl id) in
      let waiting : pending d' ≡ id ∷ [] = simp (R.list-lpush, nothing_waits) in
      rw hooked (
        poll_queue-IsPlaced C clone_token base id row req to heartbeat (jobs ++ row ∷ []) runners
          now d' fit waiting found refl (λ x there. lpush-mailbox id x.id d ∙ no_mail x there) among
          fits decodes may stored)
