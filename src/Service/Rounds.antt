-- ===== src/Service/Rounds.antt =====
-- internal/scheduler/service.go: what one round of the loop in `Run` does with the id that it takes
-- from the queue, when Redis does every command and the database answers in any way.
use grid_runner.Prelude.{
  ℕ, ◌≡◌, refl, ap, ◌∙◌, sym, String, true, false, inl, inr, List, [], ◌∷◌, ◌++◌, Bool-cases, ◌==◌,
  eq_refl, eq_iff,
}
use grid_runner.Fallible.{Err, Result, ok, err}
use grid_runner.Exec.{Exec, pure, choose, handle, ◌>>=◌}
use grid_runner.Models.{Job, Runner, queued, job_status_eq}
use grid_runner.Scheduler.{schedule}
use grid_runner.Store.{Store}
use grid_runner.Store.Statements.{get_job}
use grid_runner.Store.Jobs.{assign_job}
use grid_runner.Store.Runners.{idle_runners}
use grid_runner.Queue.{
  Redis, pending_key, inflight_key, runner_key, remove_first, enqueue, ack, requeue, dispatch,
  command, reply,
}
use grid_runner.Queue.Keys.{runner_key-ne-pending, runner_key-ne-inflight}
use grid_runner.Queue.Laws.{quiet, pending, inflight, pending-requeued, inflight-requeued}
use grid_runner.Queue.Recovery.{dequeue-quiet}
use grid_runner.World.{World, in_store, in_broker, ignore, from_result}
use grid_runner.Service.{requeue_quietly, hand_over, place, assign, poll_queue}

pub eq_flip : (a b : String) → (a == b) ≡ false → (b == a) ≡ false
eq_flip a b h = elim (Bool-cases (b == a)) [
  | inl same ↦ absurd (let no : (a == b) ≡ true = (eq_iff a b).1 (sym ((eq_iff b a).0 same)) in cc)
  | inr e ↦ e
]

module _ ⦃R : Redis⦄ where
  abbrev pub on_quiet : Store → R.Db → World
  on_quiet s d = record { store = s; broker = quiet d }

  -- Where the id goes from the in-flight list of `d`, and what `e` is then; `s` is the database at
  -- the beginning of the round, and `v` at its end.
  pub data Goes (heartbeat : ℕ) (s v : Store) (id : String) (d e : R.Db) : Type 0 where
    returned :
        pending e ≡ id ∷ pending d
        → inflight e ≡ remove_first id (inflight d)
        → Goes heartbeat s v id d e
    -- after the `AssignJob` of this round, which follows the read of the job and of the idle runners,
    -- has returned no error and left the database as it is at the end
    delivered :
        (runner_id : String)
        → assign_job id runner_id (idle_runners heartbeat (get_job id s).1).1 ≡ (ok tt, v)
        → R.list e (runner_key runner_id) ≡ id ∷ R.list d (runner_key runner_id)
        → pending e ≡ pending d
        → inflight e ≡ remove_first id (inflight d)
        → Goes heartbeat s v id d e
    -- only when the job was not read as QUEUED
    dropped :
        ((j : Job) → (get_job id s).0 ≡ ok j → job_status_eq j.status queued ≡ false)
        → pending e ≡ pending d
        → inflight e ≡ remove_first id (inflight d)
        → Goes heartbeat s v id d e

  Goes-inflight :
      (heartbeat : ℕ) (s v : Store) (id : String) (d e : R.Db)
      → Goes heartbeat s v id d e
      → inflight e ≡ remove_first id (inflight d)
  Goes-inflight heartbeat s v id d e (returned p i) = i
  Goes-inflight heartbeat s v id d e (delivered x g m p i) = i
  Goes-inflight heartbeat s v id d e (dropped w p i) = i

  -- A broker that still does every command, and the place where the id went.
  abbrev Settled : ℕ → Store → String → R.Db → World → Type 0
  Settled heartbeat s id d w = (e : R.Db) × (w.broker ≡ quiet e) × Goes heartbeat s w.store id d e

  requeue_settles :
      (heartbeat : ℕ) (s t : Store) (id : String) (d : R.Db)
      → Settled heartbeat s id d (requeue_quietly id (on_quiet t d)).1
  unfolding requeue_quietly ignore in_broker requeue ack enqueue command reply handle pure ◌>>=◌
  requeue_settles heartbeat s t id d = (
    R.lpush pending_key id (R.lrem inflight_key id d),
    refl,
    returned (pending-requeued id d) (inflight-requeued id d),
  )

  ack_settles :
      (heartbeat : ℕ) (s t : Store) (id : String) (d : R.Db)
      → ((j : Job) → (get_job id s).0 ≡ ok j → job_status_eq j.status queued ≡ false)
      → Settled heartbeat s id d (ignore (in_broker (ack id)) (on_quiet t d)).1
  unfolding ignore in_broker ack command reply handle pure ◌>>=◌
  ack_settles heartbeat s t id d why =
      (R.lrem inflight_key id d, refl, dropped why (simp R.list-lrem) (simp R.list-lrem))

  abbrev pub mailed : String → String → R.Db → R.Db
  mailed runner_id id d =
      R.lrem inflight_key id (R.expire (runner_key runner_id) (R.lpush (runner_key runner_id) id d))

  hand_over_settles :
      (heartbeat : ℕ) (s t : Store) (id runner_id : String) (d : R.Db)
      → assign_job id runner_id (idle_runners heartbeat (get_job id s).1).1 ≡ (ok tt, t)
      → Settled heartbeat s id d (hand_over id runner_id (on_quiet t d)).1
  unfolding hand_over ignore in_broker dispatch ack command reply handle pure ◌>>=◌
  hand_over_settles heartbeat s t id runner_id d good = (
    mailed runner_id id d,
    refl,
    delivered runner_id good
        (simp (
          R.list-lrem,
          R.list-expire,
          R.list-lpush,
          eq_flip _ _ (runner_key-ne-inflight runner_id),
          eq_refl,
        ))
        (simp (R.list-lrem, R.list-expire, R.list-lpush, runner_key-ne-pending runner_id))
        (simp (R.list-lrem, R.list-expire, R.list-lpush, runner_key-ne-inflight runner_id)),
  )

  -- A request to the database leaves the queue alone.
  handle_settles :
      {A B : Type 0} (heartbeat : ℕ) (s t : Store) (id : String) (d : R.Db) (m : Exec Store A)
      (f : A → Exec World B) (g : Err → Exec World B)
      → ((a : A) (u : Store) → m t ≡ (ok a, u) → Settled heartbeat s id d (f a (on_quiet u d)).1)
      → ((e : Err) (u : Store) → m t ≡ (err e, u) → Settled heartbeat s id d (g e (on_quiet u d)).1)
      → Settled heartbeat s id d (handle (in_store m) f g (on_quiet t d)).1
  unfolding handle in_store
  handle_settles heartbeat s t id d m f g good bad = go (m t).0 (m t).1 refl
    where
      go :
          (r : Result _) (u : Store)
          → m t ≡ (r, u)
          → Settled heartbeat s id d (handle (in_store m) f g (on_quiet t d)).1
      go (ok a) u e = rw e (good a u e)
      go (err x) u e = rw e (bad x u e)

  place_settles :
      (heartbeat : ℕ) (s t : Store) (id : String) (d : R.Db) (j : Job) (candidates : List Runner)
      → t ≡ (idle_runners heartbeat (get_job id s).1).1
      → Settled heartbeat s id d (place id j candidates (on_quiet t d)).1
  unfolding place from_result handle
  place_settles heartbeat s t id d j candidates now_ = go (schedule j candidates)
    where
      go :
          (r : Result Runner)
          → Settled heartbeat s id d
              (handle
                (from_result r)
                (λ runner.
                  handle
                    (in_store (assign_job id runner.id))
                    (λ _. hand_over id runner.id)
                    (λ _. requeue_quietly id))
                (λ _. requeue_quietly id)
                (on_quiet t d)).1
      go (ok runner) =
          handle_settles heartbeat s t id d (assign_job id runner.id) _ _
            (λ a u good.
              hand_over_settles heartbeat s u id runner.id d
                (ap (assign_job id runner.id) (sym now_) ∙ good))
            (λ e u bad. requeue_settles heartbeat s u id d)
      go (err e) = requeue_settles heartbeat s t id d

  assign_settles :
      (heartbeat : ℕ) (s : Store) (id : String) (d : R.Db)
      → Settled heartbeat s id d (assign heartbeat id (on_quiet s d)).1
  unfolding assign choose
  assign_settles heartbeat s id d =
      handle_settles heartbeat s s id d (get_job id) _ _
        (λ j u got. elim (Bool-cases (job_status_eq j.status queued)) [
          | inl waits ↦ rw waits (
              handle_settles heartbeat s u id d (idle_runners heartbeat) _ _
                (λ candidates v e. place_settles heartbeat s v id d j candidates (
                  sym
                    (ap (λ t. (idle_runners heartbeat t).1) (ap (λ p. p.1) got) ∙ ap (λ p. p.1) e)))
                (λ e v bad. requeue_settles heartbeat s v id d))
          | inr moved ↦ rw moved (
              ack_settles heartbeat s u id d (λ k again.
                let read : ok k ≡ ok j = sym again ∙ ap (λ p. p.0) got in
                let same : k ≡ j = cc in rw same moved))
        ])
        (λ e u bad.
          ack_settles heartbeat s u id d
            (λ j good. absurd (let no : ok j ≡ err e = sym good ∙ ap (λ p. p.0) bad in cc)))

  -- What a round makes of the queue whose oldest id is `id`, over the older queue `d`.
  abbrev pub Round : ℕ → Store → String → List String → R.Db → World → Type 0
  Round heartbeat s id xs d w =
      (taken e : R.Db) × (w.broker ≡ quiet e)
      × (inflight e ≡ inflight d)
      × (pending taken ≡ xs)
      × Goes heartbeat s w.store id taken e

  -- With every Redis command done, and whatever the database answers, a round that takes the
  -- oldest id ends with the in-flight list as it was before: the id goes back into the pending
  -- list as its newest; or into the mailbox of a runner, when the `AssignJob` of this round to that
  -- runner, after the reads of the job and of the idle runners, has returned no error, and then the
  -- database is as that call left it; or it is dropped because the job was not read as QUEUED.
  pub poll_queue-Round :
      (heartbeat : ℕ) (s : Store) (d : R.Db) (xs : List String) (id : String)
      → pending d ≡ xs ++ id ∷ []
      → Round heartbeat s id xs d (poll_queue heartbeat (on_quiet s d)).1
  unfolding poll_queue handle in_broker
  poll_queue-Round heartbeat s d xs id waiting =
      let (taken, took, lists) = R.blmove_last pending_key inflight_key d xs id refl waiting in
      let (e, still_quiet, goes) = assign_settles heartbeat s id taken in
      let back : remove_first id (inflight taken) ≡ inflight d =
        ap (remove_first id) (lists inflight_key) ∙ simp eq_refl in
      rw (dequeue-quiet d taken id took) (
        taken,
        e,
        still_quiet,
        Goes-inflight heartbeat s _ id taken e goes ∙ back,
        lists pending_key,
        goes,
      )
