-- ===== src/Api.antt =====
-- internal/api: requests, responses, and the checks of internal/api/middleware.go. A handler runs
-- over the state of the control plane and answers on every path.
pub mod Jobs
pub mod Runners
pub mod Webhook
pub mod Lawful
pub mod Access
pub mod Mailboxes
pub mod Leases
pub mod Undelivered
pub mod Results
pub mod Deliveries
pub mod Starts
pub mod Numbers
pub mod Chunks
pub mod Waiting
use Prim.Native.String.{len, slice}
use grid_runner.Prelude.{
  ℕ, String, ℤ, Bool, true, false, not, ◌||◌, Option, none, some, List, [], ltb, length, ◌==◌,
  if◌then◌else◌,
}
use grid_runner.Fallible.{Err, not_found, invalid_transition, ignored}
use grid_runner.Exec.{Exec, pure, choose, handle, ◌>>=◌}
use grid_runner.Models.{Job, Runner}
use grid_runner.Github.{Crypto, trim_prefix}
use grid_runner.Store.Statements.{get_job}
use grid_runner.Store.Runners.{runner_token_hash}
use grid_runner.Queue.{Redis}
use grid_runner.World.{World, in_store}

pub record RegisterRequest : Type 0 where
  pub name : String
  pub labels : List String
  pub architecture : String
  pub os : String

pub record ResultRequest : Type 0 where
  pub status : String
  pub exit_code : ℤ
  pub error : String

-- What the handlers call and the repository does not implement: digests, and the JSON decoder
-- behind `MaxBytesReader`, which is given the limit.
pub record Codec : Type 0 where
  pub crypto : Crypto
  pub sha256_hex : String → String
  pub decode_register : ℕ → List ℕ → Option RegisterRequest
  pub decode_heartbeat : ℕ → List ℕ → Option String
  pub decode_result : ℕ → List ℕ → Option ResultRequest

-- The parts of `http.Request` that the handlers read; a header that is not there is "".
pub record Request : Type 0 where
  pub path_id : String
  pub runner_id : String
  pub authorization : String
  pub registration_token : String
  pub log_seq : String
  pub signature : String
  pub event : String
  pub limit : String
  pub body : List ℕ

pub data Body : Type 0 where
  nothing : Body
  -- {"error": …} with a fixed text, or with the text of an error
  failure : String → Body
  reason : Err → Body
  -- {"status": …}
  status : String → Body
  job : Job → Body
  jobs : List Job → Body
  logs : List ℕ → Body
  runner : Runner → Body
  runners : List Runner → Body
  registered : String → String → Body
  beat : Bool → Body
  delivery : Job → String → Body
  created : String → Body
  -- {"postgres": …, "redis": …}, and a text that is no JSON
  checks : String → String → Body
  plain : String → Body

pub record Response : Type 0 where
  pub code : ℕ
  pub body : Body

abbrev pub write : ℕ → Body → Response
write code body = record { code = code; body = body }

abbrev pub is_not_found : Err → Bool
is_not_found not_found = true
is_not_found _ = false

abbrev pub is_invalid_transition : Err → Bool
is_invalid_transition invalid_transition = true
is_invalid_transition _ = false

-- `job.RunnerID != nil && *job.RunnerID == runnerID`.
abbrev pub owned_by : Option String → String → Bool
owned_by none runner_id = false
owned_by (some owner) runner_id = owner == runner_id

-- `io.ReadAll(http.MaxBytesReader(w, r.Body, limit))`.
abbrev pub read_all : ℕ → List ℕ → Option (List ℕ)
read_all limit body = if ltb limit (length body) then none else some body

module _ ⦃R : Redis⦄ where
  abbrev pub Handler : Type 0
  Handler = Request → Exec World Response

  -- The id that is authenticated: the header, or the path where there is no header.
  abbrev pub presented_id : Request → String
  presented_id r = if r.runner_id == "" then r.path_id else r.runner_id

  unfoldable pub with_runner_auth : Codec → Handler → Handler
  with_runner_auth C next r =
      choose (presented_id r == "" || trim_prefix r.authorization "Bearer " == "")
        (pure (write 401 (failure "missing runner credentials")))
        (handle (in_store (runner_token_hash (presented_id r)))
          (λ want.
            choose (not (want == C.sha256_hex (trim_prefix r.authorization "Bearer ")))
              (pure (write 401 (failure "invalid runner token"))) (next r))
          (λ _. pure (write 401 (failure "unknown runner"))))

  unfoldable pub runner_owns_job : Request → String → Exec World Bool
  runner_owns_job r job_id =
      handle (in_store (get_job job_id)) (λ j. pure (owned_by j.runner_id r.runner_id))
        (λ _. pure false)
