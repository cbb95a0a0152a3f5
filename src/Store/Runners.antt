-- ===== src/Store/Runners.antt =====
-- internal/store/store.go: the methods over `runners`.
use grid_runner.Prelude.{
  ℕ, ◌+◌, ◌*◌, ◌/◌, String, Bool, true, false, not, ◌&&◌, Option, none, some, List, [], ◌∷◌, ◌++◌,
  ltb, leb, map, if◌then◌else◌,
}
use grid_runner.Fallible.{Result, ok, err, not_found, unique_violation}
use grid_runner.Exec.{Exec, pure, raise, choose, choose_at, ◌>>=◌}
use grid_runner.Models.{Runner, RunnerStatus, idle, offline, runner_status_eq}
use grid_runner.Store.{RunnerRow, Store, statement}
use grid_runner.Store.Rows.{find_row, update_rows, count_rows, select_rows, order_rows}
use grid_runner.Store.Statements.{runner_has_id, update_runners}

abbrev pub new_runner_row : ℕ → Runner → String → RunnerRow
new_runner_row now r token_hash = record {
  runner = record r {
    status = idle;
    current_job_id = none;
    last_heartbeat = now;
    last_assigned = none;
    created_at = now;
  };
  token_hash = token_hash;
}

unfoldable pub register_runner : Runner → String → Exec Store (Unit {0})
register_runner r token_hash = statement (
    choose_at (λ s. ltb 0 (count_rows (runner_has_id r.id) s.runners)) (raise unique_violation)
      (λ s. (ok tt, record s { runners = s.runners ++ new_runner_row s.now r token_hash ∷ [] })))

abbrev pub scan_runner : Option RunnerRow → Result Runner
scan_runner none = err not_found
scan_runner (some r) = ok r.runner

unfoldable pub get_runner : String → Exec Store Runner
get_runner id = statement (λ s. (scan_runner (find_row (runner_has_id id) s.runners), s))

abbrev pub scan_hash : Option RunnerRow → Result String
scan_hash none = err not_found
scan_hash (some r) = ok r.token_hash

unfoldable pub runner_token_hash : String → Exec Store String
runner_token_hash id = statement (λ s. (scan_hash (find_row (runner_has_id id) s.runners), s))

unfoldable pub list_runners : Exec Store (List Runner)
list_runners = statement (λ s. (
  ok (
      map (λ (r : RunnerRow). r.runner)
        (order_rows (λ a b. leb b.created_at a.created_at) s.runners)),
  s,
))

-- `CASE WHEN status = 'OFFLINE' THEN 'IDLE' ELSE status END`.
abbrev pub revive : RunnerStatus → RunnerStatus
revive status = if runner_status_eq status offline then idle else status

unfoldable pub heartbeat : String → Exec Store (Unit {0})
heartbeat id = do
  affected ← update_runners (runner_has_id id) (λ now r. record r {
    runner = record r.runner { last_heartbeat = now; status = revive r.status };
  })
  choose (ltb 0 affected) (pure tt) (raise not_found)

-- `fmt.Sprintf("%d seconds", int(timeout.Seconds()))` as microseconds: a Go duration counts
-- nanoseconds, and the fraction of a second is cut off.
abbrev pub interval : ℕ → ℕ
interval timeout = timeout / 1000000000 * 1000000

-- `last_heartbeat > now() - interval`, with the subtraction moved to the other side.
abbrev pub is_live : ℕ → ℕ → RunnerRow → Bool
is_live now timeout r = ltb now (r.last_heartbeat + interval timeout)

-- `last_heartbeat < now() - interval`.
abbrev pub is_silent : ℕ → ℕ → RunnerRow → Bool
is_silent now timeout r = ltb (r.last_heartbeat + interval timeout) now

-- ASC NULLS FIRST.
abbrev pub assigned_before : Option ℕ → Option ℕ → Bool
assigned_before none _ = true
assigned_before (some a) none = false
assigned_before (some a) (some b) = leb a b

unfoldable pub idle_runners : ℕ → Exec Store (List Runner)
idle_runners timeout = statement (λ s. (
  ok (
      map (λ (r : RunnerRow). r.runner)
        (order_rows (λ a b. assigned_before a.last_assigned b.last_assigned)
          (select_rows (λ r. runner_status_eq r.status idle && is_live s.now timeout r)
            s.runners))),
  s,
))

-- The rows of the CTE `stale`.
abbrev pub is_stale : ℕ → ℕ → RunnerRow → Bool
is_stale now timeout r = not (runner_status_eq r.status offline) && is_silent now timeout r

-- `COALESCE(current_job_id, '')`.
abbrev pub coalesce : Option String → String
coalesce none = ""
coalesce (some id) = id

-- The map from runner to job; ids are unique, and the loop over a Go map has no order.
unfoldable pub reap_offline_runners : ℕ → Exec Store (List (String × String))
reap_offline_runners timeout = statement (λ s. (
  ok (
      map (λ (r : RunnerRow). (r.id, coalesce r.current_job_id))
        (select_rows (is_stale s.now timeout) s.runners)),
  record s {
    runners =
        update_rows (is_stale s.now timeout)
          (λ r. record r { runner = record r.runner { status = offline; current_job_id = none } })
          s.runners;
  },
))
