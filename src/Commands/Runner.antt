-- ===== src/Commands/Runner.antt =====
-- cmd/runner/main.go: from the flags of a runner to the end of its process.
use grid_runner.Prelude.{ℕ, ◌≡◌, refl, ap, String, Bool, Option, none, some, List, [], ◌∷◌}
use grid_runner.Config.{Config, value_or}
use grid_runner.Runner.Agent.{Delivery}
use grid_runner.Runner.Protocol.{
  Agent, HttpRequest, HttpAnswer, Codec, register_request, register, run_rounds,
}

-- The flags that are given; a flag that is not has the value of the environment.
pub record Flags : Type 0 where
  pub server : Option String
  pub name : Option String
  pub labels : Option String

-- The Docker engine, the answer to the registration, and the rounds of `Run` after it: whether the
-- context is done, and the answer to the poll.
pub record Machine : Type 0 where
  pub new_docker : Option String
  pub ping : Option String
  pub registration : HttpAnswer
  pub rounds : List (Bool × HttpAnswer)

pub record Ending : Type 0 where
  pub exit_code : ℕ
  pub registered_with : List HttpRequest
  pub executed : List Delivery

unfoldable pub with_flags : {F : Type 0} → Flags → Config F → Config F
with_flags flags cfg = record cfg {
  server_url = value_or flags.server cfg.server_url;
  runner_name = value_or flags.name cfg.runner_name;
  runner_labels = value_or flags.labels cfg.runner_labels;
}

abbrev unregistered : Agent
unregistered = record { id = ""; token = ""; active = none; marked = [] }

abbrev exit : ℕ → Ending
exit code = record { exit_code = code; registered_with = []; executed = [] }

module _ (P : Codec) {F : Type 0} (M : Machine) (cfg : Config F) where
  abbrev ended : Option String × Agent → Ending
  ended (some e, a) = record {
    exit_code = 1;
    registered_with = register_request P cfg ∷ [];
    executed = [];
  }
  ended (none, a) = record {
    exit_code = 0;
    registered_with = register_request P cfg ∷ [];
    executed = run_rounds P cfg M.rounds;
  }

  -- `Run`: its error, when the registration fails, becomes exit code 1.
  unfoldable pub run : Ending
  run = ended (register P cfg M.registration unregistered)

  abbrev pinged : Option String → Ending
  pinged (some e) = exit 1
  pinged none = run

  abbrev connected : Option String → Ending
  connected (some e) = exit 1
  connected none = pinged M.ping

  unfoldable pub start : Ending
  start = connected M.new_docker

  abbrev Executes : Delivery → List Delivery → Ending → Type 0
  Executes d rest e = e.executed ≡ d ∷ rest

  -- How the process has come to execute a job.
  abbrev IsReady : Ending → Type 0
  IsReady e =
      (M.new_docker ≡ none)
      × (M.ping ≡ none)
      × ((register P cfg M.registration unregistered).0 ≡ none)
      × (e.registered_with ≡ register_request P cfg ∷ [])
      × (e.exit_code ≡ 0)

  start-IsReady : (d : Delivery) (rest : List Delivery) → Executes d rest (start) → IsReady (start)
  unfolding start run
  start-IsReady d rest = docker M.new_docker refl
    where
      registers :
          (p : Option String × Agent)
          → M.new_docker ≡ none
          → M.ping ≡ none
          → register P cfg M.registration unregistered ≡ p
          → Executes d rest (ended p)
          → IsReady (ended p)
      registers (some e, a) up alive same h = absurd (cc)
      registers (none, a) up alive same h = (up, alive, ap (λ p. p.0) same, refl, refl)

      pings :
          (o : Option String)
          → M.new_docker ≡ none
          → M.ping ≡ o
          → Executes d rest (pinged o)
          → IsReady (pinged o)
      pings (some e) up same h = absurd (cc)
      pings none up same h = registers (register P cfg M.registration unregistered) up same refl h

      docker :
          (o : Option String)
          → M.new_docker ≡ o
          → Executes d rest (connected o)
          → IsReady (connected o)
      docker (some e) same h = absurd (cc)
      docker none same h = pings M.ping same refl h

unfoldable pub runner_main : {F : Type 0} → Codec → Machine → Flags → Config F → Ending
runner_main P M flags cfg = start P M (with_flags flags cfg)

-- A runner that executes a job has reached the Docker engine and was registered under its flags.
runner_main-IsReady :
    {F : Type 0} (P : Codec) (M : Machine) (flags : Flags) (cfg : Config F) (d : Delivery)
    (rest : List Delivery)
    → (runner_main P M flags cfg).executed ≡ d ∷ rest
    → IsReady P M (with_flags flags cfg) (runner_main P M flags cfg)
unfolding runner_main
runner_main-IsReady P M flags cfg d rest h = start-IsReady P M (with_flags flags cfg) d rest h
