-- ===== src/Runner/Posts.antt =====
-- internal/runner/agent.go: what a runner posts about its job, and what it makes of the answers. An
-- error is `some` text; it is logged and nothing more.
use Prim.Native.String.{◌++◌ as ◌<>◌}
use grid_runner.Prelude.{ℕ, String, ℤ, Option, none, some, List, [], ltb, itoa, if◌then◌else◌}
use grid_runner.Config.{Config}
use grid_runner.Models.{JobStatus}
use grid_runner.Runner.{Outcome, gives, fails}
use grid_runner.Runner.Protocol.{
  Agent, HttpRequest, HttpAnswer, no_answer, answer, Codec, request, do_request,
}

abbrev error_of : {A : Type 0} → Outcome A → Option String
error_of (fails e) = some e
error_of (gives x) = none

abbrev pub job_path : String → String → String
job_path id rest = "/api/v1/jobs/" <> (id <> rest)

module _ (C : Codec) {F : Type 0} (cfg : Config F) where
  -- `do` of a POST, with nothing to decode.
  unfoldable pub do_post : String → HttpAnswer → Option String
  do_post path x =
      error_of (do_request C cfg (λ body. some tt) ("POST " <> (path <> " returned")) x)

  abbrev pub start_request : String → Agent → HttpRequest
  start_request id a = request C cfg "POST" (job_path id "/start") [] a

  abbrev pub start_error : String → HttpAnswer → Option String
  start_error id x = do_post (job_path id "/start") x

  abbrev pub log_request : String → ℕ → List ℕ → Agent → HttpRequest
  log_request id seq chunk a = record (request C cfg "POST" (job_path id "/logs") chunk a) {
    log_seq = itoa seq;
  }

  unfoldable pub ship_logs : ℕ → HttpAnswer → Option String
  ship_logs seq (no_answer e) = some e
  ship_logs seq (answer code body) =
      if ltb code 300
      then none
      else some (C.status_text ("log chunk " <> (itoa seq <> " returned")) code body)

  abbrev pub result_request : String → JobStatus → ℤ → String → Agent → HttpRequest
  result_request id status exit_code message a =
      request C cfg "POST" (job_path id "/result") (C.result_body status exit_code message) a

  abbrev pub result_error : String → HttpAnswer → Option String
  result_error id x = do_post (job_path id "/result") x
