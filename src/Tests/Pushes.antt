-- ===== src/Tests/Pushes.antt =====
-- The theorems on the whole program, from a request to a runner, at concrete values.
use grid_runner.System.{webhook, schedule_round}
use grid_runner.System.Forgotten.{here, next, CalmRun-IsWaiting}
use grid_runner.Service.Waiting.{IsWaiting}
use grid_runner.World.{World}
use grid_runner.Prelude.{
  ◌≡◌, ◌⊎◌, inl, refl, ℕ, String, Bool, true, false, none, some, Option, List, [], ◌∷◌, arith,
}
use grid_runner.Fallible.{ok, err, malformed}
use grid_runner.Models.{failed}
use grid_runner.Config.{load}
use grid_runner.Github.{Event, push_event, verify_signature, trim_prefix}
use grid_runner.Scheduler.{eligible}
use grid_runner.Store.Rows.{find_row, order_rows, insert_ordered, select_rows}
use grid_runner.Store.Statements.{job_has_id}
use grid_runner.Store.Candidates.{candidates}
use grid_runner.Store.Creation.{violates, new_row}
use grid_runner.World.Calm.{calm, IsUntouched}
use grid_runner.Service.{poll_queue}
use grid_runner.Models.{can_run}
use grid_runner.Api.{Codec, Request, Body, write, status, created, beat}
use grid_runner.Api.Jobs.{handle_cancel_job}
use grid_runner.Api.Runners.{handle_heartbeat}
use grid_runner.Api.Webhook.{handle_webhook}
use grid_runner.Api.Webhook.{job_of_event}
use grid_runner.Api.Deliveries.{IsGenuine, after_webhook, webhook_queues_once}
use grid_runner.System.Builds.{IsPlaced}
use grid_runner.System.Push.{push_is_built}
use grid_runner.System.Network.{transmit}
use grid_runner.System.Cancelling.{cancelled_row, cancel_reaches_runner}
use grid_runner.Runner.Protocol.{Codec as AgentCodec, Agent, heartbeat_request, end_heartbeat}
use grid_runner.Server.{cancel, Server, Surprise, HttpRequest, found, routes, select, serve}
use grid_runner.Server.Guarded.{IsOutsider, serve-IsUntouched}
use grid_runner.Tests.Databases.{plain_environment}
use grid_runner.Tests.ListRedis.{list_redis}
use grid_runner.Tests.Rounds.{
  clone_token, failing_result, result_codec, push_accepted, signature_accepted,
}
use grid_runner.Tests.Values.{
  empty_lists, running_row, idle_row, idle_runner, busy_row, running_world, plain_codec, request,
  push_payload,
}

abbrev pushed : Event
pushed = push_event push_payload

-- The delivery of a push, with its signature.
abbrev pub hook : Request
hook = record request { signature = "sha256=0102" }

hook-IsGenuine : IsGenuine result_codec "key" hook pushed
hook-IsGenuine = record { fits = refl; signed = signature_accepted; parsed = push_accepted }

webhook_queues_once_example :
    (handle_webhook result_codec "key" "j1" hook (calm [] (idle_row ∷ []) 9 empty_lists)
      ≡ (ok (write 202 (created "j1")), after_webhook "j1" pushed [] (idle_row ∷ []) 9 empty_lists))
    × (handle_webhook result_codec "key" "j2" hook
          (after_webhook "j1" pushed [] (idle_row ∷ []) 9 empty_lists)
        ≡ (
          ok (write 200 (status "duplicate")),
          after_webhook "j1" pushed [] (idle_row ∷ []) 9 empty_lists,
        ))
unfolding violates
webhook_queues_once_example =
    webhook_queues_once result_codec "key" "j1" "j2" hook pushed [] (idle_row ∷ []) 9 empty_lists
      hook-IsGenuine refl

push_is_built_example :
    IsPlaced result_codec clone_token request "j1"
      (new_row 9 (job_of_event "j1" pushed))
      failing_result
      failed
      9
      (candidates 45000000000 (idle_row ∷ []) 9)
      (poll_queue 45000000000
        (handle_webhook result_codec "key" "j1" hook (calm [] (idle_row ∷ []) 9 empty_lists)).1).1
unfolding violates order_rows insert_ordered select_rows eligible can_run
push_is_built_example =
    push_is_built result_codec "key" clone_token hook request "j1" pushed failing_result failed
      45000000000 [] (idle_row ∷ []) 9 empty_lists idle_runner hook-IsGenuine refl refl
      (λ x there. refl) (inl refl) refl refl refl refl

-- The two sides write the id of a job, and whether it is cancelled, as one code each.
abbrev id_codec : Codec
id_codec = record plain_codec { decode_heartbeat = λ limit body. some "j1" }

abbrev pub says_cancel : Body → List ℕ
says_cancel (beat true) = 1 ∷ []
says_cancel _ = []

abbrev hears_cancel : List ℕ → Option Bool
hears_cancel [] = none
hears_cancel (n ∷ rest) = some true

abbrev pub agent_codec : AgentCodec
agent_codec = record {
  registration_body = λ name labels. [];
  decode_registration = λ body. none;
  heartbeat_body = λ id. [];
  result_body = λ status exit_code message. [];
  decode_cancel = hears_cancel;
  decode_delivery = λ body. none;
  json_error = λ body. "";
  status_text = λ what code body. what;
}

abbrev pub building_agent : Agent
building_agent = record {
  id = "r1";
  token = "t";
  active = some (record { number = 4; id = "j1" });
  marked = [];
}

cancel_reaches_runner_example :
    let (b, w) = handle_cancel_job request running_world in
    let sent = record request {
      path_id = "r1";
      body = (heartbeat_request agent_codec (load plain_environment) building_agent).body;
    } in
    (b ≡ ok (write 200 (status "CANCELLED")))
    × (find_row (job_has_id "j1") w.store.jobs ≡ some (cancelled_row 9 running_row))
    × (end_heartbeat agent_codec
          (load plain_environment)
          (transmit says_cancel (handle_heartbeat id_codec sent w).0)
          building_agent.active
          building_agent
        ≡ record building_agent { marked = 4 ∷ [] })
unfolding find_row
cancel_reaches_runner_example =
    cancel_reaches_runner id_codec agent_codec (load plain_environment) says_cancel request request
      building_agent (record { number = 4; id = "j1" }) (running_row ∷ []) (busy_row ∷ []) 9
      empty_lists running_row busy_row refl refl refl refl refl refl refl refl refl

abbrev pub small_server : Server
small_server = record { codec = plain_codec; webhook_secret = "key"; registration_token = "join" }

abbrev pub surprise : Surprise
surprise = record {
  job_id = "j3";
  runner_id = "r3";
  runner_token = ok "t3";
  clone_token = clone_token;
  client_gone = false;
  request_id = "q";
  postgres = none;
  redis = none;
}

-- A result for j1 with the name of a runner that is not registered.
abbrev intruder : HttpRequest
intruder = record {
  method = "POST";
  path = "api" ∷ "v1" ∷ "jobs" ∷ "j1" ∷ "result" ∷ [];
  request_id = "";
  request = request;
}

unsigned_refused : verify_signature plain_codec.crypto "key" [] "" ≡ err malformed
unfolding verify_signature trim_prefix
unsigned_refused = refl

intruder-IsOutsider : IsOutsider small_server request running_world
unfolding find_row
intruder-IsOutsider = record {
  unregistered = refl;
  unsigned = (_, unsigned_refused);
  forged = λ value x seen. absurd (ground arith);
}

serve-IsUntouched_example :
    ((value : String) × (select "POST" ("api" ∷ "v1" ∷ "jobs" ∷ "j1" ∷ "result" ∷ []) routes false
        ≡ found cancel value))
    ⊎ IsUntouched running_world (serve small_server surprise intruder running_world).1
serve-IsUntouched_example =
    serve-IsUntouched small_server surprise intruder running_world intruder-IsOutsider

-- A webhook, then a round of the scheduler and a start, on empty tables.
abbrev queued_world : World
queued_world =
    (handle_webhook result_codec "key" "j1" hook (calm [] (idle_row ∷ []) 9 empty_lists)).1

abbrev polled_world : World
polled_world =
    (poll_queue 45000000000 (
      calm queued_world.store.jobs queued_world.store.runners queued_world.store.now
        queued_world.broker.db)).1

CalmRun-IsWaiting_example : IsWaiting polled_world
unfolding find_row
CalmRun-IsWaiting_example =
    CalmRun-IsWaiting result_codec (calm [] (idle_row ∷ []) 9 empty_lists) polled_world
      (next (next here (webhook "key" "j1" hook)) (schedule_round 45000000000))
      (λ id (r, there, waits). absurd (cc))
