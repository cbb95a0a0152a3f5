-- ===== src/Api/Runners.antt =====
-- internal/api/runners.go. The fresh id and token of a registration (`uuid.NewString`, `newToken`)
-- and the answer of GitHub to a clone request are arguments.
use grid_runner.Prelude.{
  String, Bool, true, false, not, ◌||◌, Option, none, some, ◌==◌, if◌then◌else◌,
}
use grid_runner.Fallible.{Err, Result, ok, err, empty}
use grid_runner.Exec.{Exec, pure, choose, handle, from_option, ◌>>=◌}
use grid_runner.Models.{Runner, idle, terminal}
use grid_runner.Store.Statements.{get_job}
use grid_runner.Store.Runners.{register_runner, heartbeat, get_runner, list_runners}
use grid_runner.Queue.{Redis, receive}
use grid_runner.World.{World, in_store, in_broker}
use grid_runner.Api.{
  Codec, RegisterRequest, Response, Handler, write, nothing, failure, runner, runners, registered,
  beat, delivery, is_not_found, owned_by,
}

abbrev pub job_id_of : Option String → String
job_id_of none = ""
job_id_of (some id) = id

-- The row that a registration asks for; the INSERT sets the times.
abbrev pub new_runner : String → RegisterRequest → Runner
new_runner id req = record {
  id = id;
  name = req.name;
  status = idle;
  labels = req.labels;
  architecture = req.architecture;
  os = req.os;
  current_job_id = none;
  last_heartbeat = 0;
  last_assigned = none;
  created_at = 0;
}

abbrev pub token_or_empty : Result String → String
token_or_empty (ok token) = token
token_or_empty (err e) = ""

abbrev pub is_empty_queue : Err → Bool
is_empty_queue empty = true
is_empty_queue _ = false

module _ ⦃R : Redis⦄ where
  unfoldable pub register_with :
      Codec → String → Result String → RegisterRequest → Exec World Response
  register_with C id (err e) req = pure (write 500 (failure "cannot generate token"))
  register_with C id (ok token) req =
      handle (in_store (register_runner (new_runner id req) (C.sha256_hex token)))
        (λ _. pure (write 201 (registered id token)))
        (λ _. pure (write 500 (failure "registration failed")))

  unfoldable pub handle_register : Codec → String → String → Result String → Handler
  handle_register C registration_token id token r =
      choose (not (r.registration_token == registration_token))
        (pure (write 401 (failure "invalid registration token")))
        (from_option (C.decode_register 65536 r.body)
          (pure (write 400 (failure "invalid JSON body")))
          (λ req.
            choose (req.name == "") (pure (write 400 (failure "name is required")))
              (register_with C id token req)))

  unfoldable pub lease_lost : String → String → Exec World Bool
  lease_lost runner_id job_id =
      handle (in_store (get_job job_id))
        (λ j. pure (terminal j.status || not (owned_by j.runner_id runner_id))) (λ _. pure true)

  unfoldable pub answer_heartbeat : String → String → Exec World Response
  answer_heartbeat runner_id job_id =
      choose (job_id == "") (pure (write 200 (beat false)))
        do lost ← lease_lost runner_id job_id; pure (write 200 (beat lost))

  unfoldable pub handle_heartbeat : Codec → Handler
  handle_heartbeat C r =
      handle (in_store (heartbeat r.path_id))
        (λ _. answer_heartbeat r.path_id (job_id_of (C.decode_heartbeat 4096 r.body)))
        (λ e. pure (
          if is_not_found e
          then write 404 (failure "unknown runner")
          else write 500 (failure "heartbeat failed")))

  -- `client_gone`: the request's context has ended, so nothing is written.
  unfoldable pub handle_poll_job : (String → Result String) → Bool → Handler
  handle_poll_job clone_token client_gone r =
      handle (in_broker (receive r.path_id))
        (λ job_id.
          handle (in_store (get_job job_id))
            (λ j. pure (write 200 (delivery j (token_or_empty (clone_token j.repository)))))
            (λ _. pure (write 500 (failure "job not found"))))
        (λ e. pure (
          if is_empty_queue e
          then write 204 nothing
          else if client_gone
          then write 200 nothing
          else write 500 (failure "cannot read mailbox")))

  unfoldable pub handle_list_runners : Handler
  handle_list_runners r =
      handle (in_store list_runners) (λ rs. pure (write 200 (runners rs)))
        (λ _. pure (write 500 (failure "cannot list runners")))

  unfoldable pub handle_get_runner : Handler
  handle_get_runner r =
      handle (in_store (get_runner r.path_id)) (λ x. pure (write 200 (runner x)))
        (λ e. pure (
          if is_not_found e
          then write 404 (failure "runner not found")
          else write 500 (failure "cannot load runner")))
