-- ===== src/Queue/Laws.antt =====
-- The queue operations when every command is done.
use grid_runner.Prelude.{◌≡◌, refl, String, List, [], ◌∷◌}
use grid_runner.Fallible.{ok}
use grid_runner.Exec.{◌>>=◌, pure}
use grid_runner.Queue.{
  Redis, Broker, pending_key, inflight_key, remove_first, reply, command, enqueue, ack, requeue,
  requeue_all,
}

module _ ⦃R : Redis⦄ where
  -- A broker that does every command.
  abbrev pub quiet : R.Db → Broker
  quiet d = record { db = d; outcomes = [] }

  abbrev pub pending : R.Db → List String
  pending d = R.list d pending_key

  abbrev pub inflight : R.Db → List String
  inflight d = R.list d inflight_key

  abbrev pub requeued : String → R.Db → R.Db
  requeued id d = R.lpush pending_key id (R.lrem inflight_key id d)

  requeue-quiet : (id : String) (d : R.Db) → requeue id (quiet d) ≡ (ok tt, quiet (requeued id d))
  unfolding requeue enqueue ack command reply ◌>>=◌
  requeue-quiet id d = refl

  abbrev pub requeued_all : List String → R.Db → R.Db
  requeued_all [] d = d
  requeued_all (id ∷ ids) d = requeued_all ids (requeued id d)

  pub requeue_all-quiet :
      (ids : List String) (d : R.Db)
      → requeue_all ids (quiet d) ≡ (ok tt, quiet (requeued_all ids d))
  unfolding requeue_all pure ◌>>=◌
  requeue_all-quiet [] d = refl
  requeue_all-quiet (id ∷ ids) d =
      rw (requeue-quiet id d, ◌>>=◌) (requeue_all-quiet ids (requeued id d))

  pub pending-requeued : (id : String) (d : R.Db) → pending (requeued id d) ≡ id ∷ pending d
  pending-requeued id d = simp (R.list-lpush, R.list-lrem)

  pub inflight-requeued :
      (id : String) (d : R.Db) → inflight (requeued id d) ≡ remove_first id (inflight d)
  inflight-requeued id d = simp (R.list-lpush, R.list-lrem)
