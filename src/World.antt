-- ===== src/World.antt =====
-- The control plane as one state: the database and the queue that all its processes share.
pub mod Lawful
pub mod Calm
use grid_runner.Exec.{Exec, pure, handle}
use grid_runner.Fallible.{Err, Result}
use grid_runner.Store.{Store}
use grid_runner.Queue.{Redis, Broker}

module _ ⦃R : Redis⦄ where
  pub record World : Type 0 where
    pub store : Store
    pub broker : Broker

  module _ {A : Type 0} where
    unfoldable pub in_store : Exec Store A → Exec World A
    in_store m w = let (r, s) = m w.store in (r, record w { store = s })

    unfoldable pub in_broker : Exec Broker A → Exec World A
    in_broker m w = let (r, b) = m w.broker in (r, record w { broker = b })

    -- `_ = call()`, or an error that is only logged.
    unfoldable pub ignore : Exec World A → Exec World (Unit {0})
    ignore m = handle m (λ _. pure tt) (λ _. pure tt)

    unfoldable pub from_result : Result A → Exec World A
    from_result r w = (r, w)
