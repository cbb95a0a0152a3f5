-- ===== src/Tests/Rounds.antt =====
-- The theorems on the queue, the scheduler's round, and the checks of the API at concrete values.
use grid_runner.Models.{job_status_eq, queued as is_waiting}
use grid_runner.Prelude.{true, ◌≡◌, ◌⊎◌, refl, pos, String, false, some, [], ◌∷◌, arith}
use grid_runner.Fallible.{Result, ok}
use grid_runner.Store.{Store, done, refused}
use grid_runner.Store.Rows.{find_row}
use grid_runner.Store.Creation.{violates, new_row}
use grid_runner.Github.{
  verify_signature, parse_event, trim_prefix, hex_decode, push_event, is_sha, validate, parse_push,
  trim_left, in_set, hex_digit, bytes_equal,
}
use grid_runner.Github.Accepted.{IsFit, parse_event-IsFit}
use grid_runner.Queue.{runner_key, dequeue}
use grid_runner.Queue.Laws.{quiet, pending, inflight}
use grid_runner.Queue.Recovery.{restarted, dequeue_then_crash}
use grid_runner.Service.{poll_queue}
use grid_runner.Models.{failed}
use grid_runner.Service.Rounds.{on_quiet, Round, poll_queue-Round}
use grid_runner.World.Calm.{calm}
use grid_runner.Api.{Request, ResultRequest, Codec, with_runner_auth, write, failure, delivery}
use grid_runner.Api.Jobs.{not_owner, handle_job_start, handle_job_logs, handle_job_result}
use grid_runner.Api.Results.{IsRecorded, handle_job_result-IsRecorded}
use grid_runner.Api.Runners.{lease_lost, handle_poll_job, token_or_empty}
use grid_runner.Api.Webhook.{queue_job}
use grid_runner.Api.Access.{IsForeign, Turned, foreign_runner_refused}
use grid_runner.Api.Leases.{Lease, lease_lost-Lease}
use grid_runner.Api.Mailboxes.{poll_takes_any_mailbox}
use grid_runner.Api.Undelivered.{refusing, undelivered_job_stays_queued}
use grid_runner.Tests.ListRedis.{list_redis, Lists, put}
use grid_runner.Tests.Values.{
  empty_lists, waiting_job, waiting_row, running_row, idle_row, busy_row, running_world,
  plain_crypto, plain_codec, request, push_payload,
}

-- Two jobs wait, j1 longest.
abbrev two_waiting : Lists
two_waiting = put "forgerun:jobs:pending" ("j2" ∷ "j1" ∷ []) empty_lists

dequeue_then_crash_example :
    ((dequeue (quiet two_waiting)).0 ≡ ok "j1")
    × (pending (dequeue (quiet two_waiting)).1.db ≡ "j2" ∷ [])
    × (inflight (dequeue (quiet two_waiting)).1.db ≡ "j1" ∷ [])
    × (inflight (restarted (dequeue (quiet two_waiting)).1).db ≡ [])
    × (pending (restarted (dequeue (quiet two_waiting)).1).db ≡ "j1" ∷ "j2" ∷ [])
dequeue_then_crash_example = dequeue_then_crash two_waiting ("j2" ∷ []) "j1" refl

-- The database answers the read and then nothing.
abbrev slow_store : Store
slow_store = record {
  jobs = waiting_row ∷ [];
  runners = idle_row ∷ [];
  now = 9;
  outcomes = done ∷ refused ∷ [];
}

poll_queue-Round_example :
    Round 5 slow_store "j1"
      ("j2" ∷ [])
      two_waiting
      (poll_queue 5 (on_quiet slow_store two_waiting)).1
poll_queue-Round_example = poll_queue-Round 5 slow_store two_waiting ("j2" ∷ []) "j1" refl

abbrev pub failing_result : ResultRequest
failing_result = record { status = "FAILED"; exit_code = pos 2; error = "" }

abbrev pub result_codec : Codec
result_codec = record plain_codec { decode_result = λ limit body. some failing_result }

abbrev result_request : Request
result_request = record request { runner_id = "r1" }

handle_job_result-IsRecorded_example :
    IsRecorded result_request failing_result failed
      (running_row ∷ [])
      (busy_row ∷ [])
      9
      running_row
      (handle_job_result result_codec result_request running_world)
unfolding find_row
handle_job_result-IsRecorded_example =
    handle_job_result-IsRecorded result_codec result_request failing_result failed
      (running_row ∷ []) (busy_row ∷ []) 9 empty_lists running_row refl refl refl refl refl refl

r2-IsForeign : IsForeign request running_world
unfolding find_row
r2-IsForeign j found = ground arith

foreign_runner_refused_example :
    Turned not_owner (handle_job_start request running_world) running_world
    × Turned not_owner (handle_job_logs request running_world) running_world
    × Turned not_owner (handle_job_result plain_codec request running_world) running_world
foreign_runner_refused_example =
    foreign_runner_refused plain_codec request running_world r2-IsForeign

-- r1, which is registered with the token t, asks for the mailbox of r2.
abbrev prying : Request
prying = record request { path_id = "r2"; runner_id = "r1" }

abbrev other_mailbox : Lists
other_mailbox = put "forgerun:runner:r2:mailbox" ("j1" ∷ []) empty_lists

abbrev pub clone_token : String → Result String
clone_token repository = ok "secret"

poll_takes_any_mailbox_example :
    (d : Lists) × (with_runner_auth plain_codec
        (handle_poll_job clone_token false)
        prying
        (calm (running_row ∷ []) (busy_row ∷ []) 9 other_mailbox)
      ≡ (
        ok (write 200 (delivery running_row.job (token_or_empty (clone_token "o/r")))),
        calm (running_row ∷ []) (busy_row ∷ []) 9 d,
      ))
    × (d (runner_key "r2") ≡ [])
unfolding find_row runner_key trim_prefix
poll_takes_any_mailbox_example =
    poll_takes_any_mailbox plain_codec clone_token false prying (running_row ∷ []) (busy_row ∷ []) 9
      other_mailbox busy_row running_row [] "j1" refl refl refl refl refl refl

undelivered_job_stays_queued_example :
    let (r, v) = queue_job waiting_job (refusing [] [] 9 empty_lists) in
    (r ≡ ok (write 500 (failure "cannot enqueue job")))
    × (v.broker.db ≡ empty_lists)
    × (v.store.jobs ≡ new_row 9 waiting_job ∷ [])
    × (job_status_eq (new_row 9 waiting_job).status is_waiting ≡ true)
unfolding violates
undelivered_job_stays_queued_example =
    undelivered_job_stays_queued waiting_job [] [] 9 empty_lists refl refl

pub push_accepted : parse_event plain_crypto "push" [] ≡ ok (push_event push_payload)
unfolding parse_event parse_push validate is_sha in_set trim_left trim_prefix
push_accepted = refl

abbrev event_name : String
event_name = "push"

parse_event-IsFit_example :
    IsFit (push_event push_payload)
    × ((push_event push_payload).event_type ≡ event_name)
    × ((event_name ≡ "push") ⊎ (event_name ≡ "pull_request"))
parse_event-IsFit_example =
    parse_event-IsFit plain_crypto event_name [] (push_event push_payload) push_accepted

pub signature_accepted : verify_signature plain_crypto "key" [] "sha256=0102" ≡ ok tt
unfolding verify_signature trim_prefix hex_decode hex_digit bytes_equal
signature_accepted = refl

lease_lost-Lease_example : Lease "r1" "j1" running_world (lease_lost "r1" "j1" running_world)
lease_lost-Lease_example = lease_lost-Lease "r1" "j1" running_world
