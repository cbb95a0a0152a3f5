-- ===== src/Api/Lawful.antt =====
-- The handlers, however their requests end, change rows only as Store/Steps says.
use grid_runner.Prelude.{String, Bool, true, ◌≡◌, refl, Option, none, some}
use grid_runner.Fallible.{Result, ok, err}
use grid_runner.Exec.Always.{
  Always, Always-pure, Always-bind, Always-handle, Always-choose, Always-from_option,
}
use grid_runner.Models.{
  Job, JobStatus, success, failed, queued, running, assigned, cancelled, terminal, parse_job_status,
}
use grid_runner.Store.Lawful.JobMethods.{
  Always-get_job, Always-start_job, Always-complete_job, Always-cancel_job, Always-append_logs,
  Always-create_job,
}
use grid_runner.Store.Lawful.RunnerMethods.{
  Always-register_runner, Always-heartbeat, Always-runner_token_hash,
}
use grid_runner.Queue.{Redis}
use grid_runner.Exec.{Exec, from_option}
use grid_runner.Github.{Event}
use grid_runner.World.{World}
use grid_runner.World.Lawful.{
  Keeps, Keeps-preorder, Keeps-in_store, Keeps-in_broker, Keeps-ignore, keeps_rules,
}
use grid_runner.Api.{
  Codec, Request, RegisterRequest, ResultRequest, Response, Handler, with_runner_auth,
  runner_owns_job,
}
use grid_runner.Api.Jobs.{
  handle_cancel_job, handle_job_start, handle_job_logs, handle_job_result, finish_job, reported,
}
use grid_runner.Api.Runners.{
  register_with, handle_register, lease_lost, answer_heartbeat, handle_heartbeat, handle_poll_job,
}
use grid_runner.Api.Webhook.{job_of_event, queue_job, handle_webhook}

module _ ⦃R : Redis⦄ where
  pub Keeps-with_runner_auth :
      (C : Codec) (next : Handler) (r : Request)
      → Always Keeps (next r)
      → Always Keeps (with_runner_auth C next r)
  unfolding with_runner_auth
  Keeps-with_runner_auth C next r h = search (keeps_rules, Always-runner_token_hash)

  Keeps-runner_owns_job : (r : Request) (id : String) → Always Keeps (runner_owns_job r id)
  unfolding runner_owns_job
  Keeps-runner_owns_job r id = search (keeps_rules, Always-get_job)

  pub Keeps-handle_cancel_job : (r : Request) → Always Keeps (handle_cancel_job r)
  unfolding handle_cancel_job
  Keeps-handle_cancel_job r = search (keeps_rules, Always-cancel_job)

  pub Keeps-handle_job_start : (r : Request) → Always Keeps (handle_job_start r)
  unfolding handle_job_start
  Keeps-handle_job_start r =
      search (keeps_rules, Keeps-runner_owns_job, Always-start_job, Always-get_job) depth 8

  pub Keeps-handle_job_logs : (r : Request) → Always Keeps (handle_job_logs r)
  unfolding handle_job_logs
  Keeps-handle_job_logs r = search (keeps_rules, Keeps-runner_owns_job, Always-append_logs) depth 8

  Keeps-finish_job :
      (r : Request) (req : ResultRequest) (to : JobStatus)
      → terminal to ≡ true
      → Always Keeps (finish_job r req to)
  unfolding finish_job
  Keeps-finish_job r req to final =
      search (keeps_rules, Always-complete_job, Always-get_job) depth 8

  Keeps-reported :
      (r : Request) (req : ResultRequest) (o : Option JobStatus) (refusal : Exec World Response)
      → Always Keeps refusal
      → Always Keeps (from_option (reported o) refusal (finish_job r req))
  unfolding from_option
  Keeps-reported r req none refusal h = h
  Keeps-reported r req (some success) refusal h = Keeps-finish_job r req success refl
  Keeps-reported r req (some failed) refusal h = Keeps-finish_job r req failed refl
  Keeps-reported r req (some queued) refusal h = h
  Keeps-reported r req (some assigned) refusal h = h
  Keeps-reported r req (some running) refusal h = h
  Keeps-reported r req (some cancelled) refusal h = h

  pub Keeps-handle_job_result : (C : Codec) (r : Request) → Always Keeps (handle_job_result C r)
  unfolding handle_job_result
  Keeps-handle_job_result C r =
      Always-bind _ _ Keeps-preorder (Keeps-runner_owns_job r r.path_id) λ owns.
        Always-choose _ _ _ (λ _. Always-pure Keeps-preorder _)
          (λ _. Always-from_option _ _ _ (Always-pure Keeps-preorder _) (λ req.
            Keeps-reported r req (parse_job_status req.status) _ (Always-pure Keeps-preorder _)))

  Keeps-register_with :
      (C : Codec) (id : String) (token : Result String) (req : RegisterRequest)
      → Always Keeps (register_with C id token req)
  unfolding register_with
  Keeps-register_with C id (err e) req = Always-pure Keeps-preorder _
  Keeps-register_with C id (ok token) req = search (keeps_rules, Always-register_runner)

  pub Keeps-handle_register :
      (C : Codec) (secret id : String) (token : Result String) (r : Request)
      → Always Keeps (handle_register C secret id token r)
  unfolding handle_register
  Keeps-handle_register C secret id token r = search (keeps_rules, Keeps-register_with)

  Keeps-answer_heartbeat :
      (runner_id job_id : String) → Always Keeps (answer_heartbeat runner_id job_id)
  unfolding answer_heartbeat lease_lost
  Keeps-answer_heartbeat runner_id job_id = search (keeps_rules, Always-get_job) depth 8

  pub Keeps-handle_heartbeat : (C : Codec) (r : Request) → Always Keeps (handle_heartbeat C r)
  unfolding handle_heartbeat
  Keeps-handle_heartbeat C r = search (keeps_rules, Always-heartbeat, Keeps-answer_heartbeat)

  pub Keeps-handle_poll_job :
      (clone_token : String → Result String) (gone : Bool) (r : Request)
      → Always Keeps (handle_poll_job clone_token gone r)
  unfolding handle_poll_job
  Keeps-handle_poll_job clone_token gone r = search (keeps_rules, Always-get_job)

  Keeps-queue_job : (j : Job) → j.status ≡ queued → Always Keeps (queue_job j)
  unfolding queue_job
  Keeps-queue_job j fresh =
      Always-handle _ _ _ Keeps-preorder (Keeps-in_store _ (Always-create_job j fresh))
        (λ _.
          Always-handle _ _ _ Keeps-preorder (Keeps-in_broker _) (λ _. Always-pure Keeps-preorder _)
            (λ _.
              Always-bind _ _ Keeps-preorder
                (Keeps-ignore _ (Keeps-in_store _ (Always-complete_job j.id failed _ _ refl)))
                (λ _. Always-pure Keeps-preorder _)))
        (λ e. Always-pure Keeps-preorder _)

  Keeps-queue_event : (id : String) (e : Event) → Always Keeps (queue_job (job_of_event id e))
  Keeps-queue_event id e = Keeps-queue_job (job_of_event id e) refl

  pub Keeps-handle_webhook :
      (C : Codec) (secret id : String) (r : Request) → Always Keeps (handle_webhook C secret id r)
  unfolding handle_webhook
  Keeps-handle_webhook C secret id r = search (keeps_rules, Keeps-queue_event) depth 8
