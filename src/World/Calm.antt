-- ===== src/World/Calm.antt =====
-- A control plane in which every request is done and answered, and changes that touch no table.
use grid_runner.Prelude.{ℕ, ◌≡◌, List, []}
use grid_runner.Store.{JobRow, RunnerRow}
use grid_runner.Queue.{Redis}
use grid_runner.World.{World}

module _ ⦃R : Redis⦄ where
  abbrev pub calm : List JobRow → List RunnerRow → ℕ → R.Db → World
  calm jobs runners now db = record {
    store = record { jobs = jobs; runners = runners; now = now; outcomes = [] };
    broker = record { db = db; outcomes = [] };
  }

  -- The tables and the queue are as they were.
  pub record IsUntouched (w v : World) : Type 0 where
    pub jobs : v.store.jobs ≡ w.store.jobs
    pub runners : v.store.runners ≡ w.store.runners
    pub db : v.broker.db ≡ w.broker.db
