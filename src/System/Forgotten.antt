-- ===== src/System/Forgotten.antt =====
-- The QUEUED jobs and the queue over any turns of the processes, when PostgreSQL and Redis do every request.
use grid_runner.Prelude.{
  ℕ, ◌≡◌, ◌⊎◌, inl, inr, refl, sym, String, Bool, true, none, some, List, [], ◌∷◌, ◌++◌, eq_iff,
  Bool-cases, Option-cases, if◌then◌else◌,
}
use mathlib.Core.Path.{subst}
use grid_runner.Fallible.{Err, Result, ok, err}
use grid_runner.Exec.{pure, handle, from_option}
use grid_runner.Github.{Event, verify_signature, parse_event}
use grid_runner.Store.{JobRow, RunnerRow}
use grid_runner.Store.Rows.{find_row}
use grid_runner.Store.Statements.{job_has_id}
use grid_runner.Store.Creation.{new_row, violates}
use grid_runner.Store.Candidates.{Has}
use grid_runner.Queue.{Redis, pending_key}
use grid_runner.Queue.Laws.{pending}
use grid_runner.World.{World, from_result}
use grid_runner.World.Calm.{calm}
use grid_runner.Api.{Codec, Request, read_all}
use grid_runner.Api.Webhook.{job_of_event, queue_job, handle_webhook}
use grid_runner.Api.Deliveries.{queue_job-calm, queue_job-duplicate}
use grid_runner.Api.Waiting.{
  Leaves, Leaves-with_runner_auth, Leaves-handle_cancel_job, Leaves-handle_job_start,
  Leaves-handle_job_logs, Leaves-handle_job_result, Leaves-handle_register, Leaves-handle_heartbeat,
  Leaves-handle_poll_job,
}
use grid_runner.Service.Waiting.{IsWaiting, poll_queue-IsWaiting}
use grid_runner.Service.Rescued.{reap-IsWaiting, start_up-IsWaiting}
use grid_runner.System.{
  Turn, webhook, register, beat, poll, start, log, result, cancel, schedule_round, reap_tick,
  scheduler_start, passes,
}

-- A row that is found behind others is found among them, or is the last one.
find_row-snoc :
    (p : JobRow → Bool) (x r : JobRow) (jobs : List JobRow)
    → find_row p (jobs ++ x ∷ []) ≡ some r
    → (find_row p jobs ≡ some r) ⊎ (p x ≡ true)
unfolding find_row
find_row-snoc p x r [] h = elim (Bool-cases (p x)) [
  | inl hit ↦ inr hit
  | inr miss ↦ let absent = subst (λ b. (if b then some x else none) ≡ some r) miss h in absurd (cc)
]
find_row-snoc p x r (y ∷ jobs) h = elim (Bool-cases (p y)) [
  | inl hit ↦
      let front : some y ≡ some r =
        subst (λ b. (if b then some y else find_row p (jobs ++ x ∷ [])) ≡ some r) hit h in
      inl (rw hit front)
  | inr miss ↦
      let rest : find_row p (jobs ++ x ∷ []) ≡ some r =
        subst (λ b. (if b then some y else find_row p (jobs ++ x ∷ [])) ≡ some r) miss h in
      rw miss (find_row-snoc p x r jobs rest)
]

result_cases : {A : Type 0} (r : Result A) → ((a : A) × (r ≡ ok a)) ⊎ ((e : Err) × (r ≡ err e))
result_cases (ok a) = inl (a, refl)
result_cases (err e) = inr (e, refl)

module _ ⦃R : Redis⦄ where
  Leaves-IsWaiting : {w v : World} → Leaves w v → IsWaiting w → IsWaiting v
  Leaves-IsWaiting l h id q = l.queue id (h id (l.store.queued_before id q))

  queue_job-IsWaiting :
      (id : String) (e : Event) (jobs : List JobRow) (runners : List RunnerRow) (now : ℕ) (d : R.Db)
      → IsWaiting (calm jobs runners now d)
      → IsWaiting (queue_job (job_of_event id e) (calm jobs runners now d)).1
  queue_job-IsWaiting id e jobs runners now d h =
      elim (Bool-cases (violates (job_of_event id e) jobs)) [
        | inl old ↦
            subst (λ p. IsWaiting p.1) (sym (queue_job-duplicate id e jobs runners now d old)) h
        | inr new ↦
            subst (λ p. IsWaiting p.1) (sym (queue_job-calm id e jobs runners now d new))
              (λ k (r, found, waits).
                let pushed : pending (R.lpush pending_key id d) ≡ id ∷ pending d =
                  simp R.list-lpush in
                subst (Has k) (sym pushed)
                  (elim (find_row-snoc (job_has_id k) (new_row now (job_of_event id e)) r jobs
                    found) [
                      | inl before ↦ inr (h k (r, before, waits))
                      | inr last ↦ inl ((eq_iff id k).0 last)
                    ]))
      ]

  webhook-IsWaiting :
      (C : Codec) (secret id : String) (r : Request) (w : World)
      → IsWaiting w
      → ((e : Event) → IsWaiting (queue_job (job_of_event id e) w).1)
      → IsWaiting (handle_webhook C secret id r w).1
  unfolding handle_webhook from_option from_result handle pure
  webhook-IsWaiting C secret id r w h queues = elim (Option-cases (read_all 1048576 r.body)) [
    | inl large ↦ rw large h
    | inr (body, fits) ↦ elim (result_cases (verify_signature C.crypto secret body r.signature)) [
      | inr (e, forged) ↦ rw (fits, forged) h
      | inl (done, signed) ↦ elim (result_cases (parse_event C.crypto r.event body)) [
        | inr (e, refused) ↦ rw (fits, signed, refused) h
        | inl (e, parsed) ↦ rw (fits, signed, parsed) (queues e)
      ]
    ]
  ]

  turn-IsWaiting :
      (C : Codec) (jobs : List JobRow) (runners : List RunnerRow) (now : ℕ) (d : R.Db) (v : World)
      → Turn C (calm jobs runners now d) v
      → IsWaiting (calm jobs runners now d)
      → IsWaiting v
  turn-IsWaiting C jobs runners now d v (webhook secret id r) h =
      webhook-IsWaiting C secret id r _ h (λ e. queue_job-IsWaiting id e jobs runners now d h)
  turn-IsWaiting C jobs runners now d v (register secret id token r) h =
      Leaves-IsWaiting ((Leaves-handle_register C secret id token r).at _) h
  turn-IsWaiting C jobs runners now d v (beat r) h =
      Leaves-IsWaiting ((Leaves-with_runner_auth C _ r (Leaves-handle_heartbeat C r)).at _) h
  turn-IsWaiting C jobs runners now d v (poll clone_token gone r) h =
      Leaves-IsWaiting
        ((Leaves-with_runner_auth C _ r (Leaves-handle_poll_job clone_token gone r)).at _) h
  turn-IsWaiting C jobs runners now d v (start r) h =
      Leaves-IsWaiting ((Leaves-with_runner_auth C _ r (Leaves-handle_job_start r)).at _) h
  turn-IsWaiting C jobs runners now d v (log r) h =
      Leaves-IsWaiting ((Leaves-with_runner_auth C _ r (Leaves-handle_job_logs r)).at _) h
  turn-IsWaiting C jobs runners now d v (result r) h =
      Leaves-IsWaiting ((Leaves-with_runner_auth C _ r (Leaves-handle_job_result C r)).at _) h
  turn-IsWaiting C jobs runners now d v (cancel r) h =
      Leaves-IsWaiting ((Leaves-handle_cancel_job r).at _) h
  turn-IsWaiting C jobs runners now d v (schedule_round heartbeat) h =
      poll_queue-IsWaiting heartbeat jobs runners now d h
  turn-IsWaiting C jobs runners now d v (reap_tick heartbeat) h =
      reap-IsWaiting heartbeat jobs runners now d h
  turn-IsWaiting C jobs runners now d v scheduler_start h = start_up-IsWaiting jobs runners now d h
  turn-IsWaiting C jobs runners now d v (passes later os qs le) h = h

  -- Turns of the processes, each of which has all its requests done and answered.
  pub data CalmRun (C : Codec) (w : World) : World → Type 0 where
    here : CalmRun C w w
    next :
        {v u : World}
        → CalmRun C w v
        → Turn C (calm v.store.jobs v.store.runners v.store.now v.broker.db) u
        → CalmRun C w u

  -- When PostgreSQL and Redis do every request, the queue forgets no job: on any turns of the API,
  -- the scheduler and the reaper, in any order, if the id of every QUEUED job is in the pending list
  -- at first, it is so after every turn.
  pub CalmRun-IsWaiting : (C : Codec) (w v : World) → CalmRun C w v → IsWaiting w → IsWaiting v
  CalmRun-IsWaiting C w v here h = h
  CalmRun-IsWaiting C w v (next run turn) h =
      turn-IsWaiting C _ _ _ _ v turn (CalmRun-IsWaiting C w _ run h)
