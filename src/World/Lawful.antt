-- ===== src/World/Lawful.antt =====
-- Lawful changes of the store, seen in the whole state; the queue may change at will.
use grid_runner.Fallible.{Result}
use grid_runner.Exec.{Exec}
use grid_runner.Exec.Always.{IsPreorder, Always, Always-handle, Always-pure, always_rules}
use grid_runner.Store.{Store}
use grid_runner.Store.Lawful.{Lawful, Lawful-preorder}
use grid_runner.Queue.{Redis, Broker}
use grid_runner.World.{World, in_store, in_broker, ignore, from_result}

module _ ⦃R : Redis⦄ where
  pub record Keeps (w v : World) : Type 0 where
    pub store : Lawful w.store v.store

  pub Keeps-preorder : IsPreorder Keeps
  Keeps-preorder = record {
    stays = λ w. record { store = Lawful-preorder.stays w.store };
    joins = λ w v u p q. record {
      store = Lawful-preorder.joins w.store v.store u.store p.store q.store;
    };
  }

  module _ {A : Type 0} where
    pub Keeps-in_store : (m : Exec Store A) → Always Lawful m → Always Keeps (in_store m)
    unfolding in_store
    Keeps-in_store m h = record { at = λ w. record { store = h.at w.store } }

    pub Keeps-in_broker : (m : Exec Broker A) → Always Keeps (in_broker m)
    unfolding in_broker
    Keeps-in_broker m = record { at = λ w. record { store = Lawful-preorder.stays w.store } }

    pub Keeps-from_result : (r : Result A) → Always Keeps (from_result r)
    unfolding from_result
    Keeps-from_result r = record { at = Keeps-preorder.stays }

    pub Keeps-ignore : (m : Exec World A) → Always Keeps m → Always Keeps (ignore m)
    unfolding ignore
    Keeps-ignore m h =
        Always-handle _ _ _ Keeps-preorder h (λ _. Always-pure Keeps-preorder tt)
          (λ _. Always-pure Keeps-preorder tt)

pub ruleset keeps_rules =
    (always_rules, Keeps-preorder, Keeps-in_store, Keeps-in_broker, Keeps-from_result, Keeps-ignore)
