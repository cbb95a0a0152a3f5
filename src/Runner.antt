-- ===== src/Runner.antt =====
-- internal/runner and internal/executor: what a runner does to the host, to Docker and to the
-- control plane, as a list of actions, and what comes back, as functions of the actions so far.
pub mod Workspace
pub mod Docker
pub mod Agent
pub mod Protocol
pub mod Posts
use grid_runner.Prelude.{
  ℕ, String, Bool, true, false, Option, none, some, List, [], ◌∷◌, ◌==◌, ◌&&◌, ◌++◌, ◌≡◌, refl, sym,
  ap, ◌∙◌, ℤ,
}
use grid_runner.Models.{JobStatus}
use grid_runner.JobSpec.{Spec}
use grid_runner.Fallible.{Err}
use mathlib.Core.List.{append_assoc}

-- An error, as its text.
pub data Outcome {ℓ} (A : Type ℓ) : Type ℓ where
  gives : A → Outcome A
  fails : String → Outcome A

-- The container that `ContainerCreate` is asked for; its cpus and its memory are the bit patterns
-- of 64-bit integers.
pub record Container : Type 0 where
  pub name : String
  pub image : String
  pub command : List String
  pub working_dir : String
  pub env : List String
  pub bind : String × String
  pub network_mode : String
  pub nano_cpus : ℕ
  pub memory : ℕ
  pub pids_limit : ℕ
  pub security_opt : List String
  pub cap_drop : List String

pub data Action : Type 0 where
  -- os.MkdirAll that succeeded, a command in a directory, os.RemoveAll
  made_dir : String → Action
  ran : String → List String → Action
  removed_dir : String → Action
  read_file : String → Action
  -- a text for the log stream, and its Close
  said : String → Action
  closed_stream : Action
  -- Docker: images, and a container by its id
  listed_images : String → Action
  pulled_image : String → Action
  created : Container → String → Action
  started : String → Action
  streamed_logs : String → Action
  awaited : String → Action
  removed : String → Action
  -- `setActive` and `clearActive` of the job
  set_active : String → Action
  cleared_active : String → Action
  -- the requests of a job: its start, and its result
  asked_start : String → Action
  reported : String → JobStatus → ℤ → String → Action

-- The newest first.
abbrev pub Trace : Type 0
Trace = List Action

abbrev pub Work : Type 0 → Type 0
Work A = Trace → A × Trace

-- How a wait for a container ends: an error, an exit, the deadline of the job, or a cancelled context.
pub data Waited : Type 0 where
  wait_failed : String → Waited
  exited : ℤ → Waited
  deadline : Waited
  stopped : String → Waited

-- What lies outside of the runner answers as it likes; an error is `some` text.
pub record Outside : Type 0 where
  pub make_dir : Trace → String → Option String
  pub run : Trace → String → List String → Option String × String
  -- filepath.Join
  pub join_path : String → String → String
  pub base64 : String → String
  pub read : Trace → String → Outcome (List ℕ)
  pub list_images : Trace → String → Outcome ℕ
  pub pull_image : Trace → String → Option String
  pub drain_pull : Trace → String → Option String
  pub show_duration : ℤ → String
  -- %q, the decoder of YAML, and the text of an error of `jobspec.Parse`
  pub quoted : String → String
  pub decode_spec : List ℕ → Option Spec
  pub err_text : Err → String
  pub create : Trace → Container → Outcome String
  pub start : Trace → String → Option String
  pub wait : Trace → String → Waited
  -- the request that starts a job, and whether a heartbeat has been told to cancel it by now
  pub ask_start : Trace → String → Option String
  pub is_abandoned : Trace → Bool

abbrev pub AllOf : (Action → Bool) → Trace → Type 0
AllOf test [] = Unit {0}
AllOf test (a ∷ t) = (test a ≡ true) × AllOf test t

-- The trace grew by actions that pass the test.
abbrev pub IsOf : (Action → Bool) → Trace → Trace → Type 0
IsOf test t t' = (more : Trace) × (t' ≡ more ++ t) × AllOf test more

pub IsOf-refl : (test : Action → Bool) (t : Trace) → IsOf test t t
IsOf-refl test t = ([], refl, tt)

pub IsOf-more :
    (test : Action → Bool) (t u : Trace) (a : Action)
    → test a ≡ true
    → IsOf test t u
    → IsOf test t (a ∷ u)
IsOf-more test t u a passes (more, grown, all) = (a ∷ more, ap (λ x. a ∷ x) grown, (passes, all))

AllOf-append :
    (test : Action → Bool) (xs ys : Trace) → AllOf test xs → AllOf test ys → AllOf test (xs ++ ys)
AllOf-append test [] ys h k = k
AllOf-append test (x ∷ xs) ys (p, h) k = (p, AllOf-append test xs ys h k)

pub IsOf-trans :
    (test : Action → Bool) (t u v : Trace) → IsOf test t u → IsOf test u v → IsOf test t v
IsOf-trans test t u v (xs, e, p) (ys, f, q) =
    (ys ++ xs, f ∙ (ap (λ x. ys ++ x) e ∙ sym (append_assoc ys xs t)), AllOf-append test ys xs q p)
