-- ===== src/Server.antt =====
-- internal/api/server.go: the routes, and the checks of health and readiness. A path is the list of
-- its segments, as `http.ServeMux` sees it; its matching is modelled for the patterns that are used.
pub mod Guarded
pub mod Matching
use grid_runner.Prelude.{
  ℕ, String, Bool, true, false, ◌&&◌, ◌||◌, Option, none, some, List, [], ◌∷◌, ◌==◌, if◌then◌else◌,
}
use grid_runner.Fallible.{Result}
use grid_runner.Exec.{Exec, pure, ◌>>=◌}
use grid_runner.Queue.{Redis}
use grid_runner.World.{World}
use grid_runner.Api.{
  Codec, Request, Response, Handler, write, status, checks, plain, with_runner_auth,
}
use grid_runner.Api.Jobs.{
  handle_list_jobs, handle_get_job, handle_get_job_logs, handle_cancel_job, handle_job_start,
  handle_job_logs, handle_job_result,
}
use grid_runner.Api.Runners.{
  handle_register, handle_heartbeat, handle_poll_job, handle_list_runners, handle_get_runner,
}
use grid_runner.Api.Webhook.{handle_webhook}

pub data Endpoint : Type 0 where
  health ready webhook register beat poll start log result : Endpoint
  list_runners get_runner list_jobs get_job get_job_logs cancel : Endpoint

-- A segment of a pattern: a text, or `{id}`.
pub data Segment : Type 0 where
  text : String → Segment
  id : Segment

pub record Route : Type 0 where
  pub method : String
  pub pattern : List Segment
  pub endpoint : Endpoint

abbrev route : String → List Segment → Endpoint → Route
route method pattern endpoint = record { method = method; pattern = pattern; endpoint = endpoint }

abbrev api : List Segment → List Segment
api rest = text "api" ∷ text "v1" ∷ rest

abbrev pub routes : List Route
routes =
    route "GET" (text "health" ∷ []) health
    ∷ route "GET" (text "ready" ∷ []) ready
    ∷ route "POST" (text "webhooks" ∷ text "github" ∷ []) webhook
    ∷ route "POST" (api (text "runners" ∷ text "register" ∷ [])) register
    ∷ route "POST" (api (text "runners" ∷ id ∷ text "heartbeat" ∷ [])) beat
    ∷ route "GET" (api (text "runners" ∷ id ∷ text "job" ∷ [])) poll
    ∷ route "POST" (api (text "jobs" ∷ id ∷ text "start" ∷ [])) start
    ∷ route "POST" (api (text "jobs" ∷ id ∷ text "logs" ∷ [])) log
    ∷ route "POST" (api (text "jobs" ∷ id ∷ text "result" ∷ [])) result
    ∷ route "GET" (api (text "runners" ∷ [])) list_runners
    ∷ route "GET" (api (text "runners" ∷ id ∷ [])) get_runner
    ∷ route "GET" (api (text "jobs" ∷ [])) list_jobs
    ∷ route "GET" (api (text "jobs" ∷ id ∷ [])) get_job
    ∷ route "GET" (api (text "jobs" ∷ id ∷ text "logs" ∷ [])) get_job_logs
    ∷ route "POST" (api (text "jobs" ∷ id ∷ text "cancel" ∷ [])) cancel
    ∷ []

-- The value of `{id}`, which is `found` before; "" where the pattern has none. `{id}` takes no empty
-- segment.
unfoldable pub match : List Segment → List String → String → Option String
match [] [] found = some found
match [] (s ∷ path) found = none
match (p ∷ pattern) [] found = none
match (text t ∷ pattern) (s ∷ path) found =
    let rest = match pattern path found in if t == s then rest else none
match (id ∷ pattern) (s ∷ path) found =
    let rest = match pattern path s in if s == "" then none else rest

-- A pattern with GET takes HEAD as well.
abbrev pub takes : String → String → Bool
takes pattern method = pattern == method || (pattern == "GET" && method == "HEAD")

pub data Routed : Type 0 where
  found : Endpoint → String → Routed
  method_not_allowed page_not_found : Routed

abbrev missed : Bool → Routed
missed true = method_not_allowed
missed false = page_not_found

-- The patterns do not overlap, so the first that fits is the one that ServeMux takes.
unfoldable pub select : String → List String → List Route → Bool → Routed
select method path [] known = missed known
select method path (r ∷ rs) known = elim (match r.pattern path "") [
  | none ↦ select method path rs known
  | some value ↦
      if takes r.method method then found r.endpoint value else select method path rs true
]

-- What a request meets outside of the program: the ids and tokens that are drawn, the answer of
-- GitHub to a clone request, whether the client has gone, and the errors of the two `Ping`.
pub record Surprise : Type 0 where
  pub job_id : String
  pub runner_id : String
  pub runner_token : Result String
  pub clone_token : String → Result String
  pub client_gone : Bool
  pub request_id : String
  pub postgres : Option String
  pub redis : Option String

pub record Server : Type 0 where
  pub codec : Codec
  pub webhook_secret : String
  pub registration_token : String

-- A request to the server; the header X-Request-ID is "" where there is none.
pub record HttpRequest : Type 0 where
  pub method : String
  pub path : List String
  pub request_id : String
  pub request : Request

-- The line "http request" of the log, but for the duration.
pub record AccessLine : Type 0 where
  pub request_id : String
  pub method : String
  pub path : List String
  pub status : ℕ

pub record HttpResponse : Type 0 where
  pub request_id : String
  pub response : Response
  pub logged : AccessLine

abbrev pub handle_health : Response
handle_health = write 200 (status "ok")

abbrev check_text : Option String → String
check_text none = "ok"
check_text (some e) = e

abbrev ready_code : Option String → Option String → ℕ
ready_code none none = 200
ready_code _ _ = 503

unfoldable pub handle_ready : Option String → Option String → Response
handle_ready postgres redis =
    write (ready_code postgres redis) (checks (check_text postgres) (check_text redis))

-- `withRequestID`.
unfoldable pub request_id_of : String → String → String
request_id_of fresh given = if given == "" then fresh else given

module _ ⦃R : Redis⦄ (S : Server) (F : Surprise) where
  unfoldable pub serve_endpoint : Endpoint → Handler
  serve_endpoint health r = pure handle_health
  serve_endpoint ready r = pure (handle_ready F.postgres F.redis)
  serve_endpoint webhook r = handle_webhook S.codec S.webhook_secret F.job_id r
  serve_endpoint register r =
      handle_register S.codec S.registration_token F.runner_id F.runner_token r
  serve_endpoint beat r = with_runner_auth S.codec (handle_heartbeat S.codec) r
  serve_endpoint poll r = with_runner_auth S.codec (handle_poll_job F.clone_token F.client_gone) r
  serve_endpoint start r = with_runner_auth S.codec handle_job_start r
  serve_endpoint log r = with_runner_auth S.codec handle_job_logs r
  serve_endpoint result r = with_runner_auth S.codec (handle_job_result S.codec) r
  serve_endpoint list_runners r = handle_list_runners r
  serve_endpoint get_runner r = handle_get_runner r
  serve_endpoint list_jobs r = handle_list_jobs r
  serve_endpoint get_job r = handle_get_job r
  serve_endpoint get_job_logs r = handle_get_job_logs r
  serve_endpoint cancel r = handle_cancel_job r

  -- `r.PathValue("id")` is the value that the pattern has found.
  unfoldable pub serve_routed : Routed → Handler
  serve_routed (found e value) r = serve_endpoint e (record r { path_id = value })
  serve_routed method_not_allowed r = pure (write 405 (plain "Method Not Allowed"))
  serve_routed page_not_found r = pure (write 404 (plain "404 page not found"))

  -- `withLogging`; the recorder has the status of the answer.
  abbrev access_line : HttpRequest → String → Response → AccessLine
  access_line q request_id answer = record {
    request_id = request_id;
    method = q.method;
    path = q.path;
    status = answer.code;
  }

  unfoldable pub serve : HttpRequest → Exec World HttpResponse
  serve q = do
    answer ← serve_routed (select q.method q.path routes false) q.request
    let request_id = request_id_of F.request_id q.request_id in
        pure (record {
          request_id = request_id;
          response = answer;
          logged = access_line q request_id answer;
        })
