-- ===== src/Api/Webhook.antt =====
-- internal/api/webhook.go. The fresh id of the job (`uuid.NewString`) is an argument.
use grid_runner.Prelude.{String, Bool, true, false, none, [], ◌∷◌, negsuc, if◌then◌else◌}
use grid_runner.Fallible.{Err, ignored, duplicate}
use grid_runner.Exec.{Exec, pure, handle, from_option, ◌>>◌}
use grid_runner.Models.{Job, queued, failed}
use grid_runner.Github.{Event, verify_signature, parse_event}
use grid_runner.Store.Creation.{create_job}
use grid_runner.Store.Jobs.{complete_job}
use grid_runner.Queue.{Redis, enqueue}
use grid_runner.World.{World, in_store, in_broker, ignore, from_result}
use grid_runner.Api.{Codec, Response, Handler, write, failure, reason, status, created, read_all}

-- Fields that the literal leaves out are zero; the INSERT does not read them.
abbrev pub job_of_event : String → Event → Job
job_of_event id e = record {
  id = id;
  repository = e.repository;
  clone_url = e.clone_url;
  commit_sha = e.commit_sha;
  branch = e.branch;
  event_type = e.event_type;
  config_ref = "forgerun.yml";
  labels = "linux" ∷ "docker" ∷ [];
  status = queued;
  runner_id = none;
  attempts = 0;
  exit_code = none;
  error = "";
  created_at = 0;
  started_at = none;
  completed_at = none;
}

abbrev pub is_ignored : Err → Bool
is_ignored ignored = true
is_ignored _ = false

abbrev pub is_duplicate : Err → Bool
is_duplicate duplicate = true
is_duplicate _ = false

module _ ⦃R : Redis⦄ where
  unfoldable pub queue_job : Job → Exec World Response
  queue_job j =
      handle (in_store (create_job j))
        (λ _.
          handle (in_broker (enqueue j.id)) (λ _. pure (write 202 (created j.id)))
            (λ _.
              ignore (in_store (complete_job j.id failed (negsuc 0) "could not be queued"))
              >> pure (write 500 (failure "cannot enqueue job"))))
        (λ e. pure (
          if is_duplicate e
          then write 200 (status "duplicate")
          else write 500 (failure "cannot create job")))

  unfoldable pub handle_webhook : Codec → String → String → Handler
  handle_webhook C secret id r =
      from_option (read_all 1048576 r.body) (pure (write 413 (failure "payload too large")))
        (λ body.
          handle (from_result (verify_signature C.crypto secret body r.signature))
            (λ _.
              handle (from_result (parse_event C.crypto r.event body))
                (λ e. queue_job (job_of_event id e))
                (λ e.
                  pure
                    (if is_ignored e then write 200 (status "ignored") else write 400 (reason e))))
            (λ _. pure (write 401 (failure "invalid signature"))))
