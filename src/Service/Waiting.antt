-- ===== src/Service/Waiting.antt =====
-- internal/scheduler/service.go: the QUEUED jobs and the pending list over a round, a tick and a start,
-- when PostgreSQL and Redis do every request.
use grid_runner.Prelude.{
  ℕ, ◌≡◌, ◌⊎◌, inl, inr, refl, sym, ap, String, true, false, none, some, List, [], ◌∷◌, ◌++◌,
  Bool-cases, Option-cases, arith,
}
use mathlib.Core.Path.{subst}
use grid_runner.Fallible.{err, empty}
use grid_runner.Exec.{pure, choose, handle, ◌>>=◌}
use grid_runner.Models.{JobStatus, queued, job_status_eq}
use grid_runner.Scheduler.Pick.{schedule-Picked}
use grid_runner.Store.{JobRow, RunnerRow, statement, answer}
use grid_runner.Store.Rows.{find_row, update_rows}
use grid_runner.Store.Statements.{job_has_id, get_job}
use grid_runner.Store.Jobs.{still, take_row, occupy}
use grid_runner.Store.Candidates.{Has, is_free, candidates, get_job-calm, idle_runners-calm}
use grid_runner.Store.Changes.{find_row-still}
use grid_runner.Store.Waiting.{is_queued, Queued, Queued-update_rows}
use grid_runner.Queue.{
  Redis, pending_key, inflight_key, requeue, ack, enqueue, dequeue, command, reply,
}
use grid_runner.Queue.Keys.{runner_key-ne-pending}
use grid_runner.Queue.Laws.{quiet, pending, pending-requeued}
use grid_runner.Queue.Recovery.{dequeue-quiet}
use grid_runner.World.{World, in_store, in_broker, ignore, from_result}
use grid_runner.World.Calm.{calm}
use grid_runner.Service.{requeue_quietly, place, assign, poll_queue}
use grid_runner.Service.Rounds.{mailed}
use grid_runner.Service.Progress.{assigned_round}
use grid_runner.Api.Waiting.{snoc-cases}

is_queued-status : (s : JobStatus) → job_status_eq s queued ≡ true → s ≡ queued
is_queued-status s h = ground arith

Has-snoc : (a x : String) (xs : List String) → Has a (xs ++ x ∷ []) → (x ≡ a) ⊎ Has a xs
Has-snoc a x [] (inl same) = inl same
Has-snoc a x [] (inr none_left) = absurd none_left
Has-snoc a x (y ∷ xs) (inl same) = inr (inl same)
Has-snoc a x (y ∷ xs) (inr h) = elim (Has-snoc a x xs h) [
  | inl e ↦ inl e
  | inr there ↦ inr (inr there)
]

-- A job that is found and not QUEUED, or is not found, does not wait.
not_there :
    (id : String) (jobs : List JobRow) → find_row (job_has_id id) jobs ≡ none → Queued id jobs → ⊥
not_there id jobs missing (r, found, waits) = cc

not_waiting :
    (id : String) (jobs : List JobRow) (row : JobRow)
    → find_row (job_has_id id) jobs ≡ some row
    → is_queued row ≡ false
    → Queued id jobs
    → ⊥
not_waiting id jobs row there away (r, found, waits) =
    let same : row ≡ r = cc in let both = ap is_queued same in cc

module _ ⦃R : Redis⦄ where
  -- Every QUEUED job is in the pending list, for the next rounds to take.
  abbrev pub IsWaiting : World → Type 0
  IsWaiting w = (id : String) → Queued id w.store.jobs → Has id (pending w.broker.db)

  -- Every one but that of one id.
  abbrev WaitsBut : String → List JobRow → R.Db → Type 0
  WaitsBut id jobs d = (k : String) → Queued k jobs → (id ≡ k) ⊎ Has k (pending d)

  acked : (id : String) (d : R.Db) → pending (R.lrem inflight_key id d) ≡ pending d
  acked id d = simp R.list-lrem

  ack-IsWaiting :
      (id : String) (jobs : List JobRow) (runners : List RunnerRow) (now : ℕ) (d : R.Db)
      → (Queued id jobs → ⊥)
      → WaitsBut id jobs d
      → IsWaiting (ignore (in_broker (ack id)) (calm jobs runners now d)).1
  unfolding ignore in_broker ack command reply handle pure
  ack-IsWaiting id jobs runners now d gone but k q = elim (but k q) [
    | inl same ↦ absurd (gone (subst (λ i. Queued i jobs) (sym same) q))
    | inr there ↦ subst (Has k) (sym (acked id d)) there
  ]

  requeue-IsWaiting :
      (id : String) (jobs : List JobRow) (runners : List RunnerRow) (now : ℕ) (d : R.Db)
      → WaitsBut id jobs d
      → IsWaiting (requeue_quietly id (calm jobs runners now d)).1
  unfolding requeue_quietly ignore in_broker requeue ack enqueue command reply handle pure ◌>>=◌
  requeue-IsWaiting id jobs runners now d but k q =
      subst (Has k) (sym (pending-requeued id d)) (but k q)

  delivered-IsWaiting :
      (id runner_id : String) (jobs : List JobRow) (runners : List RunnerRow) (now : ℕ) (d : R.Db)
      (row : JobRow)
      → find_row (job_has_id id) jobs ≡ some row
      → job_status_eq row.status queued ≡ true
      → WaitsBut id jobs d
      → IsWaiting (
          calm
            (update_rows (still id queued) (take_row runner_id) jobs)
            runners
            now
            (mailed runner_id id d))
  delivered-IsWaiting id runner_id jobs runners now d row found waits but k q =
      let taken = find_row-still id queued (take_row runner_id) jobs row (λ r. refl) found waits in
      let before =
        Queued-update_rows (still id queued) (take_row runner_id) jobs k (λ r. refl)
          (λ r mine hit away. absurd (cc)) q in
      let kept : pending (mailed runner_id id d) ≡ pending d =
        simp (R.list-lrem, R.list-expire, R.list-lpush, runner_key-ne-pending runner_id) in
      elim (but k before) [
        | inl same ↦ absurd (
            not_waiting id _ (take_row runner_id row) taken refl (
              subst (λ i. Queued i (update_rows (still id queued) (take_row runner_id) jobs))
                (sym same) q))
        | inr there ↦ subst (Has k) (sym kept) there
      ]

  place-IsWaiting :
      (heartbeat : ℕ) (id : String) (jobs : List JobRow) (runners : List RunnerRow) (now : ℕ)
      (d : R.Db) (row : JobRow)
      → find_row (job_has_id id) jobs ≡ some row
      → job_status_eq row.status queued ≡ true
      → WaitsBut id jobs d
      → IsWaiting (assign heartbeat id (calm jobs runners now d)).1
  unfolding assign handle in_store choose place from_result
  place-IsWaiting heartbeat id jobs runners now d row found waits but =
      elim (schedule-Picked row.job (candidates heartbeat runners now)) [
        | inl (nobody, e) ↦
            rw
              (
                get_job-calm id jobs runners now row found,
                waits,
                idle_runners-calm heartbeat jobs runners now,
                e,
              )
              (requeue-IsWaiting id jobs runners now d but)
        | inr (r, picked, there, good, unbeaten) ↦
            subst IsWaiting
              (sym (
                assigned_round heartbeat id jobs runners now row r d found
                  (is_queued-status row.status waits) there picked))
              (delivered-IsWaiting id r.id jobs
                (update_rows (is_free r.id) (occupy id r.id now) runners) now d row found waits but)
      ]

  assign-IsWaiting :
      (heartbeat : ℕ) (id : String) (jobs : List JobRow) (runners : List RunnerRow) (now : ℕ)
      (d : R.Db)
      → WaitsBut id jobs d
      → IsWaiting (assign heartbeat id (calm jobs runners now d)).1
  unfolding assign handle in_store choose get_job statement answer
  assign-IsWaiting heartbeat id jobs runners now d but =
      elim (Option-cases (find_row (job_has_id id) jobs)) [
        | inl missing ↦
            rw missing (ack-IsWaiting id jobs runners now d (not_there id jobs missing) but)
        | inr (row, found) ↦ elim (Bool-cases (job_status_eq row.status queued)) [
          | inl waits ↦ place-IsWaiting heartbeat id jobs runners now d row found waits but
          | inr away ↦
              rw (found, away)
                (ack-IsWaiting id jobs runners now d (not_waiting id jobs row found away) but)
        ]
      ]

  dequeue_empty : (d : R.Db) → pending d ≡ [] → dequeue (quiet d) ≡ (err empty, quiet d)
  unfolding dequeue command reply
  dequeue_empty d none_there = rw (R.blmove_empty pending_key inflight_key d none_there) refl

  pub poll_queue-IsWaiting :
      (heartbeat : ℕ) (jobs : List JobRow) (runners : List RunnerRow) (now : ℕ) (d : R.Db)
      → IsWaiting (calm jobs runners now d)
      → IsWaiting (poll_queue heartbeat (calm jobs runners now d)).1
  unfolding poll_queue handle in_broker pure
  poll_queue-IsWaiting heartbeat jobs runners now d h = elim (snoc-cases (pending d)) [
    | inl none_there ↦ rw (dequeue_empty d none_there) h
    | inr (xs, id, waiting) ↦
        let (e, took, lists) = R.blmove_last pending_key inflight_key d xs id refl waiting in
        let left : pending e ≡ xs = lists pending_key in
        let but : WaitsBut id jobs e = λ k q.
          let there : Has k (xs ++ id ∷ []) = subst (Has k) waiting (h k q) in
          elim (Has-snoc k id xs there) [
            | inl same ↦ inl same
            | inr old ↦ inr (subst (Has k) (sym left) old)
          ] in
        rw (dequeue-quiet d e id took) (assign-IsWaiting heartbeat id jobs runners now e but)
  ]
