-- ===== src/Queue.antt =====
-- internal/queue: the job queue over Redis lists. Redis is not part of the repository: its commands
-- are a parameter, with the documented effect of each on the lists as its laws.
pub mod Keys
pub mod Recovery
pub mod Laws
use grid_runner.Prelude.{
  ℕ, ◌≡◌, String, Bool, true, false, Option, none, some, List, [], ◌∷◌, ◌++◌, length, ◌==◌,
  if◌then◌else◌,
}
use grid_runner.Fallible.{Err, Result, ok, err, unavailable, empty}
use grid_runner.Exec.{Exec, pure, raise, ◌>>=◌, ◌>>◌}
use Prim.Native.String.{◌++◌ as ◌<>◌}
use grid_runner.Store.{Outcome, done, refused, lost}

-- `LREM key 1 value`: the first occurrence from the left goes.
abbrev pub remove_first : String → List String → List String
remove_first v [] = []
remove_first v (x ∷ xs) = if x == v then xs else x ∷ remove_first v xs

-- The lists of one Redis database, leftmost element first; a key that is not there is empty.
pub record Redis : Type 1 where
  pub Db : Type 0
  -- LRANGE key 0 -1
  pub list : Db → String → List String
  pub lpush : String → String → Db → Db
  pub lrem : String → String → Db → Db
  -- BLMOVE source target right left, and BRPOP; `none` when the wait ends with nothing there
  pub blmove : String → String → Db → Option (String × Db)
  pub brpop : String → Db → Option (String × Db)
  pub expire : String → Db → Db
  pub list-lpush :
      (k v : String) (d : Db) (j : String)
      → list (lpush k v d) j ≡ (if k == j then v ∷ list d j else list d j)
  pub list-lrem :
      (k v : String) (d : Db) (j : String)
      → list (lrem k v d) j ≡ (if k == j then remove_first v (list d j) else list d j)
  pub list-expire : (k : String) (d : Db) (j : String) → list (expire k d) j ≡ list d j
  pub blmove_empty : (k t : String) (d : Db) → list d k ≡ [] → blmove k t d ≡ none
  pub blmove_last :
      (k t : String) (d : Db) (xs : List String) (x : String)
      → (k == t) ≡ false
      → list d k ≡ xs ++ x ∷ []
      → (e : Db) × (blmove k t d ≡ some (x, e))
        × ((j : String)
            → list e j ≡ (if k == j then xs else if t == j then x ∷ list d j else list d j))
  pub brpop_empty : (k : String) (d : Db) → list d k ≡ [] → brpop k d ≡ none
  pub brpop_last :
      (k : String) (d : Db) (xs : List String) (x : String)
      → list d k ≡ xs ++ x ∷ []
      → (e : Db) × (brpop k d ≡ some (x, e))
        × ((j : String) → list e j ≡ (if k == j then xs else list d j))

abbrev pub pending_key : String
pending_key = "forgerun:jobs:pending"

abbrev pub inflight_key : String
inflight_key = "forgerun:jobs:inflight"

-- `fmt.Sprintf("forgerun:runner:%s:mailbox", runnerID)`.
unfoldable pub runner_key : String → String
runner_key runner_id = "forgerun:runner:" <> (runner_id <> ":mailbox")

module _ ⦃R : Redis⦄ where
  -- The database, and what will become of the next commands.
  pub record Broker : Type 0 where
    pub db : R.Db
    pub outcomes : List Outcome

  module _ {A : Type 0} where
    unfoldable pub reply : List Outcome → Exec Broker A → Exec Broker A
    reply [] m b = m b
    reply (done ∷ rest) m b = m (record b { outcomes = rest })
    reply (refused ∷ rest) m b = (err unavailable, record b { outcomes = rest })
    reply (lost ∷ rest) m b = (err unavailable, (m (record b { outcomes = rest })).1)

    -- One command, which is a request of its own.
    unfoldable pub command : Exec Broker A → Exec Broker A
    command m b = reply b.outcomes m b

  abbrev write : (R.Db → R.Db) → Exec Broker (Unit {0})
  write f b = (ok tt, record b { db = f b.db })

  -- `redis.Nil` becomes `ErrEmpty`.
  abbrev taken : Option (String × R.Db) → Exec Broker String
  taken none b = (err empty, b)
  taken (some (id, d)) b = (ok id, record b { db = d })

  unfoldable pub enqueue : String → Exec Broker (Unit {0})
  enqueue job_id = command (write (R.lpush pending_key job_id))

  unfoldable pub dequeue : Exec Broker String
  dequeue = command (λ b. taken (R.blmove pending_key inflight_key b.db) b)

  unfoldable pub ack : String → Exec Broker (Unit {0})
  ack job_id = command (write (R.lrem inflight_key job_id))

  unfoldable pub requeue : String → Exec Broker (Unit {0})
  requeue job_id = ack job_id >> enqueue job_id

  -- The loop over a snapshot of the in-flight list.
  unfoldable pub requeue_all : List String → Exec Broker (Unit {0})
  requeue_all [] = pure tt
  requeue_all (id ∷ ids) = requeue id >> requeue_all ids

  unfoldable pub recover : Exec Broker ℕ
  recover = do
    ids ← command (λ b. (ok (R.list b.db inflight_key), b))
    requeue_all ids
    pure (length ids)

  unfoldable pub dispatch : String → String → Exec Broker (Unit {0})
  dispatch runner_id job_id = do
    command (write (R.lpush (runner_key runner_id) job_id))
    command (write (R.expire (runner_key runner_id)))

  unfoldable pub receive : String → Exec Broker String
  receive runner_id = command (λ b. taken (R.brpop (runner_key runner_id) b.db) b)
