-- ===== src/Queue/Recovery.antt =====
-- A consumer that stops in the middle, and what `Recover` gives back.
use mathlib.Core.List.{reverse-append, append_assoc}
use grid_runner.Prelude.{
  ◌≡◌, refl, ◌∙◌, ap, String, List, [], ◌∷◌, ◌++◌, eq_refl, reverse, some, length,
}
use grid_runner.Fallible.{ok, err, unavailable}
use grid_runner.Exec.{pure, ◌>>=◌}
use grid_runner.Store.{Outcome, done, refused}
use grid_runner.Queue.{
  Redis, Broker, pending_key, inflight_key, remove_first, reply, command, dequeue, ack, enqueue,
  requeue, recover,
}
use grid_runner.Queue.Laws.{
  quiet, pending, inflight, requeued, requeued_all, requeue_all-quiet, pending-requeued,
  inflight-requeued,
}

module _ ⦃R : Redis⦄ where
  pending-requeued_all :
      (ids : List String) (d : R.Db) → pending (requeued_all ids d) ≡ reverse ids ++ pending d
  pending-requeued_all [] d = refl
  pending-requeued_all (id ∷ ids) d =
      pending-requeued_all ids (requeued id d)
      ∙ simp (pending-requeued, reverse-append (id ∷ []) ids, append_assoc)

  inflight-requeued_all :
      (ids : List String) (d : R.Db) → inflight d ≡ ids → inflight (requeued_all ids d) ≡ []
  inflight-requeued_all [] d e = e
  inflight-requeued_all (id ∷ ids) d e =
      inflight-requeued_all ids (requeued id d)
        (inflight-requeued id d ∙ ap (remove_first id) e ∙ simp eq_refl)

  pub recover-quiet :
      (d : R.Db)
      → recover (quiet d) ≡ (ok (length (inflight d)), quiet (requeued_all (inflight d) d))
  unfolding recover pure ◌>>=◌ command reply
  recover-quiet d = rw (requeue_all-quiet (inflight d) d, ◌>>=◌)

  -- What a later start finds after a scheduler has stopped at any point past its `Dequeue`.
  abbrev pub restarted : Broker → Broker
  restarted b = (recover (quiet b.db)).1

  restarted_lists :
      (d : R.Db)
      → (inflight (restarted (quiet d)).db ≡ [])
        × (pending (restarted (quiet d)).db ≡ reverse (inflight d) ++ pending d)
  restarted_lists d =
      rw (recover-quiet d, restarted)
        (inflight-requeued_all (inflight d) d refl, pending-requeued_all (inflight d) d)

  pub dequeue-quiet :
      (d e : R.Db) (x : String)
      → R.blmove pending_key inflight_key d ≡ some (x, e)
      → dequeue (quiet d) ≡ (ok x, quiet e)
  unfolding dequeue command reply
  dequeue-quiet d e x took = rw took

  -- When Redis does every command, `Dequeue` gives the oldest id and moves it to the in-flight
  -- list. If the scheduler then stops, the next `Recover` empties the in-flight list, and the
  -- pending list is what was left of it behind all ids in flight, which have come back as the
  -- newest, in reversed order.
  pub dequeue_then_crash :
      (d : R.Db) (xs : List String) (x : String)
      → pending d ≡ xs ++ x ∷ []
      → ((dequeue (quiet d)).0 ≡ ok x)
        × (pending (dequeue (quiet d)).1.db ≡ xs)
        × (inflight (dequeue (quiet d)).1.db ≡ x ∷ inflight d)
        × (inflight (restarted (dequeue (quiet d)).1).db ≡ [])
        × (pending (restarted (dequeue (quiet d)).1).db ≡ reverse (x ∷ inflight d) ++ xs)
  dequeue_then_crash d xs x e =
      let (d', took, lists) = R.blmove_last pending_key inflight_key d xs x refl e in
      let back = restarted_lists d' in
      rw (dequeue-quiet d d' x took) (
        refl,
        lists pending_key,
        lists inflight_key,
        back.0,
        back.1
            ∙ ap (λ l. reverse l ++ pending d') (lists inflight_key)
            ∙ ap (λ l. reverse (x ∷ inflight d) ++ l) (lists pending_key),
      )

  -- `Requeue` is not atomic: when its second command is refused, the id is in neither list.
  requeue_loses :
      (id : String) (d : R.Db) (rest : List Outcome)
      → let (r, b) = requeue id (record { db = d; outcomes = done ∷ refused ∷ rest }) in
        (r ≡ err unavailable)
        × (pending b.db ≡ pending d)
        × (inflight b.db ≡ remove_first id (inflight d))
  unfolding requeue ack enqueue command reply ◌>>=◌
  requeue_loses id d rest = (refl, simp R.list-lrem, simp R.list-lrem)
