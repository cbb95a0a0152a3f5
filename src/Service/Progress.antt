-- ===== src/Service/Progress.antt =====
-- internal/scheduler/service.go: a round of the loop in `Run` when every request is done.
use grid_runner.Prelude.{
  ℕ, ◌≡◌, refl, ◌∙◌, sym, String, true, false, some, inl, inr, List, [], ◌∷◌, ◌++◌, eq_refl,
}
use grid_runner.Fallible.{ok}
use grid_runner.Exec.{pure, choose, handle, ◌>>=◌}
use grid_runner.Models.{Job, Runner, queued}
use grid_runner.Scheduler.{schedule, eligible}
use grid_runner.Scheduler.Pick.{Among, IsUnbeaten, NoneEligible, schedule-Picked}
use grid_runner.Store.{JobRow, RunnerRow, Store}
use grid_runner.Store.Rows.{find_row}
use grid_runner.Store.Statements.{job_has_id}
use grid_runner.Store.Candidates.{
  candidates, calm_store, queued_eq, assigned_store, idle_runners-calm, get_job-calm,
  assign_job-calm,
}
use grid_runner.Queue.{Redis, pending_key, inflight_key, runner_key, ack, dispatch, command, reply}
use grid_runner.Queue.Keys.{runner_key-ne-pending, runner_key-ne-inflight}
use grid_runner.Queue.Laws.{pending}
use grid_runner.Queue.Recovery.{dequeue-quiet}
use grid_runner.World.{World, in_store, in_broker, ignore, from_result}
use grid_runner.Service.{hand_over, place, assign, poll_queue}
use grid_runner.Service.Rounds.{on_quiet, mailed, eq_flip}

NoneEligible-Among :
    (j : Job) (r : Runner) (cs : List Runner)
    → NoneEligible j cs
    → Among r cs
    → eligible j r ≡ false
NoneEligible-Among j r [] h among = absurd among
NoneEligible-Among j r (c ∷ cs) (unfit, h) (inl here) = rw (← here) unfit
NoneEligible-Among j r (c ∷ cs) (unfit, h) (inr there) = NoneEligible-Among j r cs h there

-- A runner that fits is chosen, when there is one.
chosen :
    (j : Job) (cs : List Runner) (fit : Runner)
    → Among fit cs
    → eligible j fit ≡ true
    → (r : Runner) × (schedule j cs ≡ ok r) × Among r cs × (eligible j r ≡ true) × IsUnbeaten j r cs
chosen j cs fit among fits = elim (schedule-Picked j cs) [
  | inl (nobody, e) ↦
      absurd (let no : true ≡ false = sym fits ∙ NoneEligible-Among j fit cs nobody among in cc)
  | inr picked ↦ picked
]

module _ ⦃R : Redis⦄ where
  hand_over-quiet :
      (s : Store) (id runner_id : String) (d : R.Db)
      → (hand_over id runner_id (on_quiet s d)).1 ≡ on_quiet s (mailed runner_id id d)
  unfolding hand_over ignore in_broker dispatch ack command reply handle pure ◌>>=◌
  hand_over-quiet s id runner_id d = refl

  -- The job is assigned in the database, and its id is the newest of the runner's mailbox.
  abbrev pub IsDelivered :
      String
      → List String
      → List JobRow
      → List RunnerRow
      → ℕ
      → R.Db
      → Job
      → List Runner
      → World
      → Type 0
  IsDelivered id xs jobs runners now d j cs w =
      (r : Runner) × (e : R.Db) × Among r cs
      × (eligible j r ≡ true)
      × IsUnbeaten j r cs
      × (w ≡ on_quiet (assigned_store id r.id jobs runners now) e)
      × (R.list e (runner_key r.id) ≡ id ∷ R.list d (runner_key r.id))
      × (pending e ≡ xs)

  pub assigned_round :
      (heartbeat : ℕ) (id : String) (jobs : List JobRow) (runners : List RunnerRow) (now : ℕ)
      (row : JobRow) (r : Runner) (d : R.Db)
      → find_row (job_has_id id) jobs ≡ some row
      → row.status ≡ queued
      → Among r (candidates heartbeat runners now)
      → schedule row.job (candidates heartbeat runners now) ≡ ok r
      → (assign heartbeat id (on_quiet (calm_store jobs runners now) d)).1
        ≡ on_quiet (assigned_store id r.id jobs runners now) (mailed r.id id d)
  unfolding assign place from_result handle in_store choose
  assigned_round heartbeat id jobs runners now row r d found waits among picked =
      rw
        (
          get_job-calm id jobs runners now row found,
          queued_eq row.status waits,
          idle_runners-calm heartbeat jobs runners now,
          picked,
          assign_job-calm id heartbeat jobs runners now row r found waits among,
        )
        (hand_over-quiet _ id r.id d)

  -- A QUEUED job whose id is the oldest of the queue reaches a runner in one round of the scheduler,
  -- when PostgreSQL and Redis do every request and one of the idle runners with a fresh heartbeat is
  -- eligible: the job is assigned to an eligible one of them, over which none is to be preferred, the
  -- id is put into the mailbox of that runner, and the queue keeps its other ids.
  pub poll_queue-IsDelivered :
      (heartbeat : ℕ) (id : String) (xs : List String) (jobs : List JobRow)
      (runners : List RunnerRow) (now : ℕ) (row : JobRow) (fit : Runner) (d : R.Db)
      → pending d ≡ xs ++ id ∷ []
      → find_row (job_has_id id) jobs ≡ some row
      → row.status ≡ queued
      → Among fit (candidates heartbeat runners now)
      → eligible row.job fit ≡ true
      → IsDelivered id xs jobs runners now d row.job
          (candidates heartbeat runners now)
          (poll_queue heartbeat (on_quiet (calm_store jobs runners now) d)).1
  unfolding poll_queue handle in_broker
  poll_queue-IsDelivered heartbeat id xs jobs runners now row fit d waiting found waits among fits =
      let (taken, took, lists) = R.blmove_last pending_key inflight_key d xs id refl waiting in
      let (r, picked, there, good, unbeaten) =
        chosen row.job (candidates heartbeat runners now) fit among fits in
      let end = assigned_round heartbeat id jobs runners now row r taken found waits there picked in
      (
        r,
        mailed r.id id taken,
        there,
        good,
        unbeaten,
        rw (dequeue-quiet d taken id took) end,
        simp (
          R.list-lrem,
          R.list-expire,
          R.list-lpush,
          lists,
          eq_flip _ _ (runner_key-ne-inflight r.id),
          eq_flip _ _ (runner_key-ne-pending r.id),
          eq_refl,
        ),
        simp (R.list-lrem, R.list-expire, R.list-lpush, lists, runner_key-ne-pending r.id),
      )
