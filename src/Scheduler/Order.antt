-- ===== src/Scheduler/Order.antt =====
-- `lessRecentlyUsed` is a strict weak order, so a single pass finds a least element.
use grid_runner.Prelude.{
  ◌≡◌, ◌⊎◌, true, false, arith, text_lt_trans, text_lt-cotrans, text_lt_irrefl,
}
use grid_runner.Models.{Runner}
use grid_runner.Scheduler.{less_recently_used, compare_assigned}

pub less_recently_used_trans :
    (a b c : Runner)
    → less_recently_used a b ≡ true
    → less_recently_used b c ≡ true
    → less_recently_used a c ≡ true
unfolding less_recently_used compare_assigned
less_recently_used_trans a b c h k = ground (arith, text_lt_trans a.id b.id c.id)

pub less_recently_used-cotrans :
    (a b c : Runner)
    → less_recently_used a c ≡ true
    → (less_recently_used a b ≡ true) ⊎ (less_recently_used b c ≡ true)
unfolding less_recently_used compare_assigned
less_recently_used-cotrans a b c h = ground (arith, text_lt-cotrans a.id b.id c.id)

pub less_recently_used_irrefl : (a : Runner) → less_recently_used a a ≡ false
unfolding less_recently_used compare_assigned
less_recently_used_irrefl a = ground (arith, text_lt_irrefl a.id)
