-- ===== src/Runner/Protocol.antt =====
-- internal/runner/agent.go: the requests of a runner to the control plane, and the bookkeeping of the
-- job that is running. A job in memory is known by a number, as a pointer is.
use Prim.Native.String.{◌++◌ as ◌<>◌}
use grid_runner.Prelude.{
  ℕ, suc, ◌-◌, ◌*◌, ◌/◌, ◌≤◌, ◌≡◌, refl, ◌⊎◌, inl, inr, String, Bool, true, false, ◌&&◌, Option,
  none, some, List, [], ◌∷◌, arith, ltb, leb, ltb→lt, lt→ltb, ◌<◌, Option-cases, Bool-cases, ℤ, pos,
  negsuc, if◌then◌else◌,
}
use grid_runner.Models.{JobStatus}
use grid_runner.Config.{Config}
use grid_runner.Runner.{Outcome, gives, fails}
use grid_runner.Runner.Agent.{Delivery}

pub record ActiveJob : Type 0 where
  pub number : ℕ
  pub id : String

-- `marked` holds the numbers of the jobs whose `abandoned` is set, the last one first.
pub record Agent : Type 0 where
  pub id : String
  pub token : String
  pub active : Option ActiveJob
  pub marked : List ℕ

-- A request, with its headers Authorization, X-Runner-ID, X-Registration-Token and X-Log-Seq.
pub record HttpRequest : Type 0 where
  pub method : String
  pub url : String
  pub authorization : String
  pub runner_id : String
  pub registration_token : String
  pub log_seq : String
  pub body : List ℕ

pub data HttpAnswer : Type 0 where
  no_answer : String → HttpAnswer
  answer : ℕ → List ℕ → HttpAnswer

abbrev same_number : ℕ → ℕ → Bool
same_number m n = leb m n && leb n m

unfoldable pub set_active : ActiveJob → Agent → Agent
set_active j a = record a { active = some j }

abbrev cleared : ActiveJob → Option ActiveJob → Option ActiveJob
cleared j none = none
cleared j (some k) = if same_number k.number j.number then none else some k

unfoldable pub clear_active : ActiveJob → Agent → Agent
clear_active j a = record a { active = cleared j a.active }

abbrev pub active_id : Option ActiveJob → String
active_id none = ""
active_id (some j) = j.id

-- Durations are nanoseconds; Go's division drops the fraction.
unfoldable pub idle_interval : ℤ → ℤ
idle_interval (pos n) = pos (n / 3)
idle_interval (negsuc n) = if ltb n 2 then pos 0 else negsuc (suc n / 3 - 1)

-- `min(idle, 5*time.Second)`.
unfoldable pub busy_interval : ℤ → ℤ
busy_interval (pos n) = if ltb 5000000000 n then pos 5000000000 else pos n
busy_interval (negsuc n) = negsuc n

abbrev waits : Option ActiveJob → ℤ → ℤ
waits none idle = idle
waits (some j) idle = busy_interval idle

unfoldable pub heartbeat_interval : ℤ → Agent → ℤ
heartbeat_interval timeout a = waits a.active (idle_interval timeout)

third-le : (n : ℕ) → (n / 3) * 3 ≤ n
third-le n = omega arith

busy_interval-le : (n : ℕ) → (k : ℕ) × (busy_interval (pos n) ≡ pos k) × (k ≤ n) × (k ≤ 5000000000)
unfolding busy_interval
busy_interval-le n = elim (Bool-cases (ltb 5000000000 n)) [
  | inl high ↦
      let above = ltb→lt 5000000000 n high in rw high (5000000000, refl, omega arith, omega arith)
  | inr low ↦ rw low (n, refl, omega arith, grind (arith, lt→ltb 5000000000 n))
]

-- With a heartbeat timeout that is not negative, the pause before a heartbeat is at most a third of
-- the timeout, and at most five seconds while the runner has a job.
heartbeat_interval-le :
    (n : ℕ) (a : Agent)
    → (k : ℕ) × (heartbeat_interval (pos n) a ≡ pos k)
      × (k * 3 ≤ n)
      × ((a.active ≡ none) ⊎ (k ≤ 5000000000))
unfolding heartbeat_interval idle_interval
heartbeat_interval-le n a = elim (Option-cases a.active) [
  | inl idle ↦ rw idle (n / 3, refl, third-le n, inl refl)
  | inr (j, busy) ↦
      let (k, same, below, short) = busy_interval-le (n / 3) in
      let third = third-le n in rw busy (k, same, omega arith, inr short)
]

same_number_refl : (n : ℕ) → same_number n n ≡ true
same_number_refl n = ground arith

same_number-apart : (m n : ℕ) → (m < n) ⊎ (n < m) → same_number n m ≡ false
same_number-apart m n (inl h) = ground arith
same_number-apart m n (inr h) = ground arith

-- A late `clearActive` of a job does not wipe another job: the heartbeats name that one.
clear_active-set_active :
    (j k : ActiveJob) (a : Agent)
    → ((clear_active j (set_active j a)).active ≡ none)
      × ((j.number < k.number) ⊎ (k.number < j.number)
          → clear_active j (set_active k a) ≡ set_active k a)
unfolding clear_active set_active
clear_active-set_active j k a = (
  rw (same_number_refl j.number) refl,
  λ apart. rw (same_number-apart j.number k.number apart) refl,
)

-- JSON, the text of its errors, and the text of an answer that is an error.
pub record Codec : Type 0 where
  pub registration_body : String → String → List ℕ
  pub decode_registration : List ℕ → Option (String × String)
  pub heartbeat_body : String → List ℕ
  pub result_body : JobStatus → ℤ → String → List ℕ
  pub decode_cancel : List ℕ → Option Bool
  pub decode_delivery : List ℕ → Option Delivery
  pub json_error : List ℕ → String
  pub status_text : String → ℕ → List ℕ → String

abbrev decoded : {A : Type 0} → String → Option A → Outcome A
decoded e none = fails e
decoded e (some x) = gives x

module _ (C : Codec) {F : Type 0} (cfg : Config F) where
  unfoldable pub register_request : HttpRequest
  register_request = record {
    method = "POST";
    url = cfg.server_url <> "/api/v1/runners/register";
    authorization = "";
    runner_id = "";
    registration_token = cfg.runner_registration_token;
    log_seq = "";
    body = C.registration_body cfg.runner_name cfg.runner_labels;
  }

  abbrev registered_as : Outcome (String × String) → Agent → Option String × Agent
  registered_as (fails e) a = (some e, a)
  registered_as (gives (id, token)) a = (none, record a { id = id; token = token })

  unfoldable pub register : HttpAnswer → Agent → Option String × Agent
  register (no_answer e) a = (some e, a)
  register (answer code body) a =
      if same_number code 201
      then registered_as (decoded (C.json_error body) (C.decode_registration body)) a
      else (some (C.status_text "server said" code body), a)

  unfoldable pub request : String → String → List ℕ → Agent → HttpRequest
  request method path body a = record {
    method = method;
    url = cfg.server_url <> path;
    authorization = "Bearer " <> a.token;
    runner_id = a.id;
    registration_token = "";
    log_seq = "";
    body = body;
  }

  -- `do`, of an answer whose body is decoded.
  unfoldable pub do_request : {A : Type 0} → (List ℕ → Option A) → String → HttpAnswer → Outcome A
  do_request decode what (no_answer e) = fails e
  do_request decode what (answer code body) =
      if ltb code 300
      then decoded (C.json_error body) (decode body)
      else fails (C.status_text what code body)

  abbrev delivered : Outcome Delivery → Outcome (Option Delivery)
  delivered (fails e) = fails e
  delivered (gives d) = gives (some d)

  abbrev pub poll_request : Agent → HttpRequest
  poll_request a = request "GET" ("/api/v1/runners/" <> (a.id <> "/job")) [] a

  unfoldable pub poll : HttpAnswer → Outcome (Option Delivery)
  poll (no_answer e) = fails e
  poll (answer code body) =
      if same_number code 204
      then gives none
      else if same_number code 200
      then delivered (decoded (C.json_error body) (C.decode_delivery body))
      else fails (C.status_text "poll returned" code body)

  abbrev pub heartbeat_request : Agent → HttpRequest
  heartbeat_request a =
      request "POST" ("/api/v1/runners/" <> (a.id <> "/heartbeat"))
        (C.heartbeat_body (active_id a.active)) a

  abbrev marked_if : Bool → Option ActiveJob → Agent → Agent
  marked_if true (some j) a = record a { marked = j.number ∷ a.marked }
  marked_if _ _ a = a

  abbrev beat_result : Outcome Bool → Option ActiveJob → Agent → Agent
  beat_result (fails e) job a = a
  beat_result (gives cancel) job a = marked_if cancel job a

  -- After the answer to a heartbeat that named `job`; the agent may have another one by then.
  unfoldable pub end_heartbeat : HttpAnswer → Option ActiveJob → Agent → Agent
  end_heartbeat x job a =
      beat_result
        (do_request C.decode_cancel ("POST /api/v1/runners/" <> (a.id <> "/heartbeat returned")) x)
        job a

  abbrev executed : Outcome (Option Delivery) → List Delivery → List Delivery
  executed (gives (some d)) later = d ∷ later
  executed _ later = later

  -- The rounds of `Run`: whether the context is done, and the answer to the poll. It gives the jobs
  -- that are executed, in order.
  unfoldable pub run_rounds : List (Bool × HttpAnswer) → List Delivery
  run_rounds [] = []
  run_rounds ((true, x) ∷ rest) = []
  run_rounds ((false, x) ∷ rest) = executed (poll x) (run_rounds rest)
