-- ===== src/System/Network.antt =====
-- The HTTP of net/http between a runner (internal/runner/agent.go) and the control plane
-- (internal/api/server.go), as the other side sees it.
use grid_runner.Prelude.{ℕ, String, List}
use grid_runner.Fallible.{Result, ok, err}
use grid_runner.Api.{Response, Body}
use grid_runner.Runner.Protocol.{HttpRequest as AgentRequest, HttpAnswer, no_answer, answer}
use grid_runner.Server.{HttpRequest, HttpResponse}

-- A request of a runner at the server, which takes the path from the URL.
abbrev pub received : (String → List String) → AgentRequest → HttpRequest
received path_of q = record {
  method = q.method;
  path = path_of q.url;
  request_id = "";
  request = record {
    path_id = "";
    runner_id = q.runner_id;
    authorization = q.authorization;
    registration_token = q.registration_token;
    log_seq = q.log_seq;
    signature = "";
    event = "";
    limit = "";
    body = q.body;
  };
}

-- What the runner reads of an answer of the API, and of the whole server.
abbrev pub transmit : (Body → List ℕ) → Result Response → HttpAnswer
transmit encode (ok r) = answer r.code (encode r.body)
transmit encode (err e) = no_answer "no answer"

abbrev pub sent_back : (Body → List ℕ) → Result HttpResponse → HttpAnswer
sent_back encode (ok r) = answer r.response.code (encode r.response.body)
sent_back encode (err e) = no_answer "no answer"
