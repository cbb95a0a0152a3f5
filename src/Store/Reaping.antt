-- ===== src/Store/Reaping.antt =====
-- internal/store/store.go, ReapOfflineRunners: whom one tick takes, and what it leaves.
use grid_runner.Prelude.{
  ℕ, ◌≡◌, refl, ◌⊎◌, inl, inr, String, true, none, List, [], ◌∷◌, map, Bool-cases,
}
use grid_runner.Fallible.{ok}
use grid_runner.Models.{offline}
use grid_runner.Store.{JobRow, RunnerRow, statement, answer}
use grid_runner.Store.Rows.{update_rows, select_rows}
use grid_runner.Store.Runners.{is_stale, coalesce, reap_offline_runners}
use grid_runner.Store.LogAppends.{quiet_store}

abbrev taken_offline : RunnerRow → RunnerRow
taken_offline r = record r { runner = record r.runner { status = offline; current_job_id = none } }

-- The runners after a tick.
abbrev pub reaped : ℕ → ℕ → List RunnerRow → List RunnerRow
reaped now timeout = update_rows (is_stale now timeout) taken_offline

-- What a tick hands back: the runners that it took, each with the job that it held, or "".
abbrev pub orphaned : ℕ → ℕ → List RunnerRow → List (String × String)
orphaned now timeout runners =
    map (λ (r : RunnerRow). (r.id, coalesce r.current_job_id))
      (select_rows (is_stale now timeout) runners)

reap_quiet :
    (timeout : ℕ) (jobs : List JobRow) (runners : List RunnerRow) (now : ℕ)
    → reap_offline_runners timeout (quiet_store jobs runners now)
      ≡ (ok (orphaned now timeout runners), quiet_store jobs (reaped now timeout runners) now)
unfolding reap_offline_runners statement answer
reap_quiet timeout jobs runners now = refl

none_stale :
    (now timeout : ℕ) (runners : List RunnerRow)
    → select_rows (is_stale now timeout) (reaped now timeout runners) ≡ []
unfolding select_rows update_rows
none_stale now timeout [] = refl
none_stale now timeout (r ∷ rs) = elim (Bool-cases (is_stale now timeout r)) [
  | inl e ↦ rw (e, none_stale now timeout rs) refl
  | inr e ↦ rw (e, e, none_stale now timeout rs) refl
]

reaped-reaped :
    (now timeout : ℕ) (runners : List RunnerRow)
    → reaped now timeout (reaped now timeout runners) ≡ reaped now timeout runners
unfolding update_rows
reaped-reaped now timeout [] = refl
reaped-reaped now timeout (r ∷ rs) = elim (Bool-cases (is_stale now timeout r)) [
  | inl e ↦ rw (e, reaped-reaped now timeout rs) refl
  | inr e ↦ rw (e, e, reaped-reaped now timeout rs) refl
]

-- The pair is in the list.
abbrev pub IsListed : String → String → List (String × String) → Type 0
IsListed runner_id job_id [] = ⊥
IsListed runner_id job_id ((r, j) ∷ rest) =
    ((r ≡ runner_id) × (j ≡ job_id)) ⊎ IsListed runner_id job_id rest

abbrev pub IsAmong : RunnerRow → List RunnerRow → Type 0
IsAmong x [] = ⊥
IsAmong x (r ∷ rs) = (r ≡ x) ⊎ IsAmong x rs

stale-IsListed :
    (now timeout : ℕ) (runners : List RunnerRow) (x : RunnerRow)
    → IsAmong x runners
    → is_stale now timeout x ≡ true
    → IsListed x.id (coalesce x.current_job_id) (orphaned now timeout runners)
unfolding select_rows
stale-IsListed now timeout [] x h e = absurd h
stale-IsListed now timeout (r ∷ rs) x (inl same) e = rw (same, e) (inl (refl, refl))
stale-IsListed now timeout (r ∷ rs) x (inr h) e = elim (Bool-cases (is_stale now timeout r)) [
  | inl stale ↦ rw stale (inr (stale-IsListed now timeout rs x h e))
  | inr live ↦ rw live (stale-IsListed now timeout rs x h e)
]

-- A tick of the reaper that the database answers hands back every runner that is not OFFLINE and has
-- been silent for the timeout, with the job that it held before the tick; no job changes; and a
-- second tick at the same moment finds none and changes nothing, so no job is handed back twice.
pub reap_offline_runners-once :
    (timeout : ℕ) (jobs : List JobRow) (runners : List RunnerRow) (now : ℕ)
    → let (r, s) = reap_offline_runners timeout (quiet_store jobs runners now) in
      ((list : List (String × String)) × (r ≡ ok list)
        × ((x : RunnerRow)
            → IsAmong x runners
            → is_stale now timeout x ≡ true
            → IsListed x.id (coalesce x.current_job_id) list))
      × (s.jobs ≡ jobs)
      × (reap_offline_runners timeout s ≡ (ok [], s))
reap_offline_runners-once timeout jobs runners now = rw (reap_quiet timeout jobs runners now) (
  (orphaned now timeout runners, refl, stale-IsListed now timeout runners),
  refl,
  rw
      (
        reap_quiet timeout jobs (reaped now timeout runners) now,
        none_stale now timeout runners,
        reaped-reaped now timeout runners,
      )
      refl,
)
