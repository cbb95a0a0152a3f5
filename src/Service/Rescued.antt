-- ===== src/Service/Rescued.antt =====
-- internal/scheduler/service.go: the QUEUED jobs over a tick of the reaper and a start, when PostgreSQL and
-- Redis do every request.
use grid_runner.Prelude.{
  ℕ, ◌≡◌, inl, inr, refl, sym, ◌∙◌, String, true, false, none, some, List, [], ◌∷◌, arith, ◌==◌,
  eq_iff, Bool-cases, Option-cases,
}
use mathlib.Core.Path.{subst}
use grid_runner.Fallible.{ok, err, not_found, invalid_transition}
use grid_runner.Exec.{pure, raise, choose, handle, from_option, ◌>>=◌}
use grid_runner.Models.{JobStatus, queued, can_transition_to}
use grid_runner.Store.{JobRow, RunnerRow, statement, answer}
use grid_runner.Store.Rows.{find_row, update_rows}
use grid_runner.Store.Statements.{job_has_id, get_job}
use grid_runner.Store.Jobs.{still, transition, release_of, requeue_job}
use grid_runner.Store.Runners.{reap_offline_runners}
use grid_runner.Store.Candidates.{Has, calm_store, get_job-calm}
use grid_runner.Store.Changes.{transition-calm, released, release_of-calm}
use grid_runner.Store.Waiting.{Queued, Queued-update_rows}
use grid_runner.Queue.{Redis, pending_key, enqueue, recover, command, reply}
use grid_runner.Queue.Laws.{
  pending, inflight, requeued_all, requeue_all-quiet, requeued, pending-requeued,
}
use grid_runner.World.{World, in_store, in_broker, ignore}
use grid_runner.World.Calm.{calm}
use grid_runner.Service.{rescue, rescue_all, reap, start_up}
use grid_runner.Service.Waiting.{IsWaiting}

-- The row after `RequeueJob`.
abbrev pub requeued_row : JobRow → JobRow
requeued_row r = record r {
  job = record r.job { status = queued; runner_id = none; started_at = none };
}

-- RequeueJob of a job that may be requeued.
requeue_job-done :
    (id : String) (jobs : List JobRow) (runners : List RunnerRow) (now : ℕ) (row : JobRow)
    → find_row (job_has_id id) jobs ≡ some row
    → can_transition_to row.status queued ≡ true
    → (left : List RunnerRow) × (requeue_job id (calm_store jobs runners now)
        ≡ (ok tt, calm_store (update_rows (still id row.status) requeued_row jobs) left now))
unfolding requeue_job release_of from_option pure ◌>>=◌
requeue_job-done id jobs runners now row found may = elim (Option-cases row.runner_id) [
  | inl nobody ↦ (
    runners,
    rw (transition-calm id queued true _ jobs runners now row found may refl, nobody) refl,
  )
  | inr (runner_id, held) ↦ (
    released runner_id runners,
    rw (transition-calm id queued true _ jobs runners now row found may refl)
        (release_of-calm (record row.job { status = queued }) runner_id _ runners now held),
  )
]

requeue_job-missing :
    (id : String) (jobs : List JobRow) (runners : List RunnerRow) (now : ℕ)
    → find_row (job_has_id id) jobs ≡ none
    → requeue_job id (calm_store jobs runners now) ≡ (err not_found, calm_store jobs runners now)
unfolding requeue_job transition get_job statement answer ◌>>=◌
requeue_job-missing id jobs runners now missing = rw missing refl

requeue_job-refused :
    (id : String) (jobs : List JobRow) (runners : List RunnerRow) (now : ℕ) (row : JobRow)
    → find_row (job_has_id id) jobs ≡ some row
    → can_transition_to row.status queued ≡ false
    → requeue_job id (calm_store jobs runners now)
      ≡ (err invalid_transition, calm_store jobs runners now)
unfolding requeue_job transition choose raise ◌>>=◌
requeue_job-refused id jobs runners now row found no_way =
    rw (get_job-calm id jobs runners now row found, no_way) refl

-- A job with another id does not become QUEUED.
Queued-requeued :
    (id k : String) (from : JobStatus) (jobs : List JobRow)
    → (id == k) ≡ false
    → Queued k (update_rows (still id from) requeued_row jobs)
    → Queued k jobs
Queued-requeued id k from jobs other =
    Queued-update_rows (still id from) requeued_row jobs k (λ r. refl)
      (λ r mine hit waits. absurd (
        let left : (r.id == id) ≡ true = ground arith in
        let one : r.id ≡ id = (eq_iff r.id id).0 left in
        let two : r.id ≡ k = (eq_iff r.id k).0 mine in
        let both : (id == k) ≡ true = (eq_iff id k).1 (sym one ∙ two) in cc))

module _ ⦃R : Redis⦄ where
  -- A calm world in which every QUEUED job is in the pending list.
  abbrev Settles : ℕ → World → Type 0
  Settles now w =
      (jobs : List JobRow) × (runners : List RunnerRow) × (d : R.Db) × (w ≡ calm jobs runners now d)
      × IsWaiting (calm jobs runners now d)

  enqueued-IsWaiting :
      (id : String) (from : JobStatus) (jobs : List JobRow) (runners left : List RunnerRow)
      (now : ℕ) (d : R.Db)
      → IsWaiting (calm jobs runners now d)
      → IsWaiting
          (calm (update_rows (still id from) requeued_row jobs) left now (R.lpush pending_key id d))
  enqueued-IsWaiting id from jobs runners left now d h k q =
      let pushed : pending (R.lpush pending_key id d) ≡ id ∷ pending d = simp R.list-lpush in
      subst (Has k) (sym pushed) (elim (Bool-cases (id == k)) [
        | inl same ↦ inl ((eq_iff id k).0 same)
        | inr other ↦ inr (h k (Queued-requeued id k from jobs other q))
      ])

  rescue-Settles :
      (id : String) (jobs : List JobRow) (runners : List RunnerRow) (now : ℕ) (d : R.Db)
      → IsWaiting (calm jobs runners now d)
      → (w : World) × (rescue id (calm jobs runners now d) ≡ (ok tt, w)) × Settles now w
  unfolding rescue ignore handle in_store in_broker enqueue command reply choose pure
  rescue-Settles id jobs runners now d h = elim (Bool-cases (id == "")) [
    | inl unnamed ↦ (_, rw unnamed refl, (jobs, runners, d, refl, h))
    | inr named ↦ elim (Option-cases (find_row (job_has_id id) jobs)) [
      | inl missing ↦ (
        _,
        rw (named, requeue_job-missing id jobs runners now missing) refl,
        (jobs, runners, d, refl, h),
      )
      | inr (row, found) ↦ elim (Bool-cases (can_transition_to row.status queued)) [
        | inl may ↦
            let (left, out) = requeue_job-done id jobs runners now row found may in
            (
              _,
              rw (named, out) refl,
              (
                _,
                left,
                R.lpush pending_key id d,
                refl,
                enqueued-IsWaiting id row.status jobs runners left now d h,
              ),
            )
        | inr no_way ↦ (
          _,
          rw (named, requeue_job-refused id jobs runners now row found no_way) refl,
          (jobs, runners, d, refl, h),
        )
      ]
    ]
  ]

  rescue_all-Settles :
      (rest : List (String × String)) (now : ℕ) (w : World)
      → Settles now w
      → Settles now (rescue_all rest w).1
  unfolding rescue_all pure ◌>>=◌ find_row
  rescue_all-Settles [] now w h = h
  rescue_all-Settles ((runner_id, id) ∷ rest) now w (jobs, runners, d, same, h) =
      let (v, saved, settled) = rescue-Settles id jobs runners now d h in
      subst (λ u. Settles now (rescue_all ((runner_id, id) ∷ rest) u).1) (sym same)
        (rw saved (rescue_all-Settles rest now v settled))

  settled-IsWaiting : (now : ℕ) (w : World) → Settles now w → IsWaiting w
  settled-IsWaiting now w (jobs, runners, d, same, h) = subst IsWaiting (sym same) h

  pub reap-IsWaiting :
      (heartbeat : ℕ) (jobs : List JobRow) (runners : List RunnerRow) (now : ℕ) (d : R.Db)
      → IsWaiting (calm jobs runners now d)
      → IsWaiting (reap heartbeat (calm jobs runners now d)).1
  unfolding reap handle in_store reap_offline_runners statement answer
  reap-IsWaiting heartbeat jobs runners now d h =
      settled-IsWaiting now _ (rescue_all-Settles _ now _ (jobs, _, d, refl, h))

  -- What comes back from the in-flight list joins the pending one.
  Has-requeued_all :
      (ids : List String) (d : R.Db) (k : String)
      → Has k (pending d)
      → Has k (pending (requeued_all ids d))
  Has-requeued_all [] d k h = h
  Has-requeued_all (id ∷ ids) d k h =
      Has-requeued_all ids (requeued id d) k (subst (Has k) (sym (pending-requeued id d)) (inr h))

  pub start_up-IsWaiting :
      (jobs : List JobRow) (runners : List RunnerRow) (now : ℕ) (d : R.Db)
      → IsWaiting (calm jobs runners now d)
      → IsWaiting (start_up (calm jobs runners now d)).1
  unfolding start_up ignore handle in_broker recover command reply pure ◌>>=◌
  start_up-IsWaiting jobs runners now d h =
      rw (requeue_all-quiet (inflight d) d) (λ k q. Has-requeued_all (inflight d) d k (h k q))
