-- ===== src/Api/Undelivered.antt =====
-- internal/api/webhook.go: a job whose id does not reach the queue.
use grid_runner.Prelude.{
  ℕ, ◌≡◌, refl, Bool, true, false, ◌||◌, some, List, [], ◌∷◌, ◌++◌, Bool-cases, inl, inr, ◌==◌,
  eq_refl, if◌then◌else◌,
}
use grid_runner.Fallible.{ok}
use grid_runner.Exec.{pure, raise, choose, choose_at, handle, ◌>>=◌}
use grid_runner.Models.{Job, queued, job_status_eq}
use grid_runner.Store.{JobRow, RunnerRow, refused, statement, answer}
use grid_runner.Store.Rows.{find_row}
use grid_runner.Store.Statements.{job_has_id, get_job}
use grid_runner.Store.Creation.{violates, clashes, new_row, insert_job, create_job}
use grid_runner.Store.Jobs.{transition, complete_job}
use grid_runner.Queue.{Redis, enqueue, command, reply}
use grid_runner.World.{World, in_store, in_broker, ignore}
use grid_runner.Api.{write, failure}
use grid_runner.Api.Webhook.{queue_job}

not_violated : (b c : Bool) → (if b || c then true else false) ≡ false → b ≡ false
not_violated true c h = absurd (cc)
not_violated false c h = refl

-- A row that an INSERT adds is the one that its id finds.
pub find_row-inserted :
    (j : Job) (y : JobRow) (rs : List JobRow)
    → violates j rs ≡ false
    → job_has_id j.id y ≡ true
    → find_row (job_has_id j.id) (rs ++ y ∷ []) ≡ some y
unfolding violates find_row
find_row-inserted j y [] h same = rw same refl
find_row-inserted j y (r ∷ rs) h same = elim (Bool-cases (r.id == j.id || clashes r.job j)) [
  | inl bad ↦ absurd (let no : true ≡ false = rw bad at h in cc)
  | inr e ↦
      let other : (r.id == j.id) ≡ false =
        not_violated (r.id == j.id) (clashes r.job j) (rw e refl) in
      rw other (find_row-inserted j y rs (rw e at h) same)
]

module _ ⦃R : Redis⦄ where
  abbrev pub refusing : List JobRow → List RunnerRow → ℕ → R.Db → World
  refusing jobs runners now db = record {
    store = record { jobs = jobs; runners = runners; now = now; outcomes = [] };
    broker = record { db = db; outcomes = refused ∷ [] };
  }

  -- When PostgreSQL does every request and has no row that the new one violates, but Redis refuses
  -- the LPUSH of the id, the step of the webhook that stores and queues a QUEUED job answers 500 and leaves
  -- Redis as it was, while the new row stays in the table, QUEUED, behind the others: marking it
  -- FAILED is no legal change of a queued job, and that error is dropped.
  pub undelivered_job_stays_queued :
      (j : Job) (jobs : List JobRow) (runners : List RunnerRow) (now : ℕ) (db : R.Db)
      → j.status ≡ queued
      → violates j jobs ≡ false
      → let (r, v) = queue_job j (refusing jobs runners now db) in
        (r ≡ ok (write 500 (failure "cannot enqueue job")))
        × (v.broker.db ≡ db)
        × (v.store.jobs ≡ jobs ++ new_row now j ∷ [])
        × (job_status_eq (new_row now j).status queued ≡ true)
  unfolding queue_job handle in_store in_broker ignore create_job insert_job statement answer choose
      choose_at raise pure enqueue command reply complete_job transition get_job ◌>>=◌
  undelivered_job_stays_queued j jobs runners now db wait new =
      rw (new, find_row-inserted j (new_row now j) jobs new (eq_refl j.id), wait)
        (refl, refl, refl, refl)
