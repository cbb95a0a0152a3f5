-- ===== src/Models.antt =====
-- internal/models: the job and runner records and their two state machines. A Go status is a
-- string; here it is one of the constants that the package declares.
pub mod States
pub mod Labels
use grid_runner.Prelude.{
  ℕ, String, Bool, true, false, Option, none, some, List, [], ◌∷◌, ℤ, ◌==◌, if◌then◌else◌,
}

pub data JobStatus : Type 0 where
  queued assigned running success failed cancelled : JobStatus

abbrev pub job_status_eq : JobStatus → JobStatus → Bool
job_status_eq queued queued = true
job_status_eq assigned assigned = true
job_status_eq running running = true
job_status_eq success success = true
job_status_eq failed failed = true
job_status_eq cancelled cancelled = true
job_status_eq _ _ = false

abbrev pub job_transitions : JobStatus → List JobStatus
job_transitions queued = assigned ∷ cancelled ∷ []
job_transitions assigned = running ∷ queued ∷ failed ∷ cancelled ∷ []
job_transitions running = success ∷ failed ∷ cancelled ∷ queued ∷ []
job_transitions success = []
job_transitions failed = []
job_transitions cancelled = []

abbrev allows : List JobStatus → JobStatus → Bool
allows [] next = false
allows (allowed ∷ rest) next = if job_status_eq allowed next then true else allows rest next

abbrev pub can_transition_to : JobStatus → JobStatus → Bool
can_transition_to s next = allows (job_transitions s) next

abbrev is_empty : List JobStatus → Bool
is_empty [] = true
is_empty (x ∷ xs) = false

abbrev pub terminal : JobStatus → Bool
terminal s = is_empty (job_transitions s)

abbrev pub parse_job_status : String → Option JobStatus
parse_job_status s =
    if s == "QUEUED"
    then some queued
    else if s == "ASSIGNED"
    then some assigned
    else if s == "RUNNING"
    then some running
    else if s == "SUCCESS"
    then some success
    else if s == "FAILED"
    then some failed
    else if s == "CANCELLED"
    then some cancelled
    else none

pub record Job : Type 0 where
  pub id : String
  pub repository : String
  pub clone_url : String
  pub commit_sha : String
  pub branch : String
  pub event_type : String
  pub config_ref : String
  pub labels : List String
  pub status : JobStatus
  pub runner_id : Option String
  pub attempts : ℕ
  pub exit_code : Option ℤ
  pub error : String
  pub created_at : ℕ
  pub started_at : Option ℕ
  pub completed_at : Option ℕ

pub data RunnerStatus : Type 0 where
  idle busy offline draining : RunnerStatus

abbrev pub runner_status_eq : RunnerStatus → RunnerStatus → Bool
runner_status_eq idle idle = true
runner_status_eq busy busy = true
runner_status_eq offline offline = true
runner_status_eq draining draining = true
runner_status_eq _ _ = false

abbrev pub runner_transitions : RunnerStatus → List RunnerStatus
runner_transitions idle = busy ∷ offline ∷ draining ∷ []
runner_transitions busy = idle ∷ offline ∷ draining ∷ []
runner_transitions draining = offline ∷ idle ∷ []
runner_transitions offline = idle ∷ []

abbrev runner_allows : List RunnerStatus → RunnerStatus → Bool
runner_allows [] next = false
runner_allows (allowed ∷ rest) next =
    if runner_status_eq allowed next then true else runner_allows rest next

abbrev pub runner_can_transition_to : RunnerStatus → RunnerStatus → Bool
runner_can_transition_to s next = runner_allows (runner_transitions s) next

pub record Runner : Type 0 where
  pub id : String
  pub name : String
  pub status : RunnerStatus
  pub labels : List String
  pub architecture : String
  pub os : String
  pub current_job_id : Option String
  pub last_heartbeat : ℕ
  pub last_assigned : Option ℕ
  pub created_at : ℕ

-- `map[string]bool`: a key that is not there reads as `false`.
have_labels : List String → (String → Bool) → String → Bool
have_labels [] have = have
have_labels (l ∷ ls) have = have_labels ls (λ k. if l == k then true else have k)

has_all : (String → Bool) → List String → Bool
has_all have [] = true
has_all have (need ∷ rest) = if have need then has_all have rest else false

unfoldable pub can_run : Runner → List String → Bool
unfolding have_labels has_all
can_run r required = has_all (have_labels r.labels (λ _. false)) required
