-- ===== src/Tests/Deployments.antt =====
-- The theorems on the processes together, at concrete values.
use grid_runner.Prelude.{◌≤◌, ◌++◌, ◌≡◌, refl, String, some, List, [], ◌∷◌, arith}
use grid_runner.Config.{load}
use grid_runner.Store.Rows.{find_row}
use grid_runner.Store.Statements.{job_has_id}
use grid_runner.World.Calm.{calm}
use grid_runner.Server.{HttpRequest}
use grid_runner.LogStream.{
  new_log_streamer, Call, writes, tick, closes, run, step, write as buffer, flush, close,
}
use grid_runner.LogStream.Delivery.{joined}
use grid_runner.Store.{JobRow, refused}
use grid_runner.Store.History.{IsSound}
use grid_runner.Store.Keys.{HasKeys}
use grid_runner.System.{Run}
use grid_runner.System.Shipping.{IsLinked, IsShipped, ship_all}
use grid_runner.Service.Loop.{round, ticker, tick as beats}
use grid_runner.Commands.Scheduler.{IsEnded, scheduler_main, scheduler_main-IsEnded}
use grid_runner.Tests.Databases.{plain_surroundings}
use grid_runner.Tests.Values.{running_world}
use grid_runner.System.Builds.{IsPlaced}
use grid_runner.Service.Rescued.{requeued_row}
use grid_runner.System.Rescue.{left_runners, orphan_is_rebuilt}
use grid_runner.Store.Candidates.{candidates}
use grid_runner.Store.{RunnerRow}
use grid_runner.Store.Rows.{update_rows, select_rows, order_rows, insert_ordered}
use grid_runner.Models.{Runner, failed, can_run}
use grid_runner.Scheduler.{eligible}
use grid_runner.Service.{poll_queue, reap}
use grid_runner.Tests.Rounds.{clone_token, failing_result, result_codec}
use grid_runner.Tests.Values.{idle_row, idle_runner, request}
use grid_runner.Prelude.{inl}
use grid_runner.System.Shipped.{log_reaches_table}
use grid_runner.System.Served.{
  Happening, request as asks, pass, restart, elapse, tick as reaps, deploy, deploy-IsSound,
}
use grid_runner.Tests.Databases.{plain_environment}
use grid_runner.Tests.ListRedis.{list_redis}
use grid_runner.Tests.Values.{empty_lists, running_row, busy_row, plain_codec}
use grid_runner.Tests.Pushes.{
  hook, says_cancel, agent_codec, building_agent, small_server, surprise,
}

-- The job before its first chunk, and a build that writes three bytes.
abbrev fresh_row : JobRow
fresh_row = record running_row { logs = []; log_seq = 0 }

abbrev small_build : List Call
small_build = writes (97 ∷ 98 ∷ []) ∷ tick ∷ writes (99 ∷ []) ∷ []

abbrev logs_of_j1 : String → List String
logs_of_j1 url = "api" ∷ "v1" ∷ "jobs" ∷ "j1" ∷ "logs" ∷ []

agent-IsLinked :
    IsLinked small_server surprise agent_codec
      (load plain_environment)
      logs_of_j1
      says_cancel
      building_agent
      "j1"
      busy_row
      (busy_row ∷ [])
unfolding find_row
agent-IsLinked = record {
  routed = refl;
  id_given = refl;
  named = refl;
  carried = refl;
  known = refl;
  matches = refl;
}

fresh_found : find_row (job_has_id "j1") (fresh_row ∷ []) ≡ some fresh_row
unfolding find_row
fresh_found = refl

few_chunks : (run new_log_streamer (small_build ++ closes ∷ [])).seq ≤ 2147483647
unfolding run step buffer flush close
few_chunks = omega arith

log_reaches_table_example :
    let s = run new_log_streamer (small_build ++ closes ∷ []) in
    (joined s.sent ≡ 97 ∷ 98 ∷ 99 ∷ [])
    × IsShipped small_server surprise agent_codec
        (load plain_environment)
        logs_of_j1
        says_cancel
        "j1"
        s.sent
        fresh_row
        (ship_all small_server surprise agent_codec
          (load plain_environment)
          logs_of_j1
          says_cancel
          building_agent
          "j1"
          s.sent
          (calm (fresh_row ∷ []) (busy_row ∷ []) 9 empty_lists))
log_reaches_table_example =
    log_reaches_table small_server surprise agent_codec (load plain_environment) logs_of_j1
      says_cancel building_agent "j1" busy_row (busy_row ∷ []) 9 empty_lists agent-IsLinked
      (fresh_row ∷ []) fresh_row small_build fresh_found refl refl refl few_chunks

-- A push arrives, the scheduler starts and looks for runners, and time passes.
abbrev delivered : HttpRequest
delivered = record {
  method = "POST";
  path = "webhooks" ∷ "github" ∷ [];
  request_id = "";
  request = hook;
}

abbrev morning : List Happening
morning = restart ∷ asks surprise delivered ∷ pass ∷ elapse 5 (refused ∷ []) [] ∷ pass ∷ reaps ∷ []

deploy-IsSound_example :
    let v = deploy small_server 45000000000 morning (calm [] [] 9 empty_lists) in
    Run plain_codec (calm [] [] 9 empty_lists) v × IsSound v.store × HasKeys v.store.jobs
deploy-IsSound_example =
    deploy-IsSound small_server 45000000000 morning (calm [] [] 9 empty_lists) refl refl

-- r1 has been silent for fifty seconds; r2 has not.
abbrev awake_runner : Runner
awake_runner = record idle_runner { id = "r2"; last_heartbeat = 50000000 }

abbrev awake_row : RunnerRow
awake_row = record idle_row { runner = awake_runner }

orphan_is_rebuilt_example :
    IsPlaced result_codec clone_token request "j1"
      (requeued_row running_row)
      failing_result
      failed
      50000000
      (candidates 45000000000
        (left_runners "r1" 50000000 45000000000 (busy_row ∷ awake_row ∷ []))
        50000000)
      (poll_queue 45000000000
        (reap 45000000000
          (calm (running_row ∷ []) (busy_row ∷ awake_row ∷ []) 50000000 empty_lists)).1).1
unfolding find_row update_rows select_rows order_rows insert_ordered eligible can_run
orphan_is_rebuilt_example =
    orphan_is_rebuilt result_codec clone_token request "j1" "r1" failing_result failed 45000000000
      (running_row ∷ []) (busy_row ∷ awake_row ∷ []) 50000000 empty_lists running_row awake_runner
      refl refl refl refl refl refl (λ x there. refl) (inl refl) refl refl refl refl

scheduler_main-IsEnded_example :
    IsEnded plain_surroundings
      (load plain_environment)
      plain_codec
      (round ∷ ticker ∷ beats ∷ [])
      running_world
      (scheduler_main plain_surroundings
        (load plain_environment)
        (round ∷ ticker ∷ beats ∷ [])
        running_world)
scheduler_main-IsEnded_example =
    scheduler_main-IsEnded plain_surroundings (load plain_environment) plain_codec
      (round ∷ ticker ∷ beats ∷ []) running_world
