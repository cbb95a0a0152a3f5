-- ===== src/Scheduler.antt =====
-- internal/scheduler/scheduler.go: which runner gets a job.
pub mod Order
pub mod Pick
use grid_runner.Prelude.{
  ℕ, String, Bool, true, false, not, ◌||◌, Option, none, some, List, [], ◌∷◌, ltb, if◌then◌else◌,
  text_lt,
}
use grid_runner.Fallible.{Result, ok, err, no_runner}
use grid_runner.Models.{Job, Runner, idle, runner_status_eq, can_run}

-- The cases of the `switch`, in its order.
unfoldable pub compare_assigned : Option ℕ → Option ℕ → String → String → Bool
compare_assigned none none a_id b_id = text_lt a_id b_id
compare_assigned none (some tb) a_id b_id = true
compare_assigned (some ta) none a_id b_id = false
compare_assigned (some ta) (some tb) a_id b_id = ltb ta tb

unfoldable pub less_recently_used : Runner → Runner → Bool
less_recently_used a b = compare_assigned a.last_assigned b.last_assigned a.id b.id

-- A candidate that the loop does not skip.
unfoldable pub eligible : Job → Runner → Bool
eligible job r =
    if not (runner_status_eq r.status idle) || not (can_run r job.labels) then false else true

abbrev better : Option Runner → Runner → Option Runner
better none r = some r
better (some best) r = if less_recently_used r best then some r else some best

unfoldable pub pick_best : Job → Option Runner → List Runner → Option Runner
pick_best job best [] = best
pick_best job best (r ∷ rs) = pick_best job (if eligible job r then better best r else best) rs

unfoldable pub schedule : Job → List Runner → Result Runner
schedule job candidates = elim (pick_best job none candidates) [
  | none ↦ err no_runner
  | some best ↦ ok best
]
