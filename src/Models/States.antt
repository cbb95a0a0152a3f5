-- ===== src/Models/States.antt =====
-- The two state machines of internal/models as graphs.
use grid_runner.Prelude.{◌≡◌, ◌↔◌, true, arith}
use grid_runner.Models.{JobStatus, job_status_eq, can_transition_to, terminal}

pub job_status_eq_iff : (a b : JobStatus) → (job_status_eq a b ≡ true) ↔ (a ≡ b)
job_status_eq_iff a b = ground arith

-- The life of a job: any number of accepted status changes.
pub data ◌⟶*◌ : JobStatus → JobStatus → Type 0 where
  here : {s : JobStatus} → ◌⟶*◌ s s
  then : {s t u : JobStatus} → can_transition_to s t ≡ true → ◌⟶*◌ t u → ◌⟶*◌ s u

infix 40 ◌⟶*◌
pub ⟶*-trans : {s t u : JobStatus} → s ⟶* t → t ⟶* u → s ⟶* u
⟶*-trans here q = q
⟶*-trans (then e p) q = then e (⟶*-trans p q)

pub ⟶*-step : {s t : JobStatus} → can_transition_to s t ≡ true → s ⟶* t
⟶*-step e = then e here

-- From a terminal status no other status is reached, by whatever number of accepted changes.
pub terminal-⟶* : {s t : JobStatus} → s ⟶* t → terminal s ≡ true → s ≡ t
terminal-⟶* here h = ground arith
terminal-⟶* (then {s} {t} {u} e p) h = absurd (ground arith)
