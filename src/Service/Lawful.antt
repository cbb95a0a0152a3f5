-- ===== src/Service/Lawful.antt =====
-- The scheduler process, however its requests end, changes rows only as Store/Steps says.
use grid_runner.Prelude.{ℕ, String, List, [], ◌∷◌}
use grid_runner.Exec.Always.{Always, Always-pure, Always-bind}
use grid_runner.Models.{Job, Runner}
use grid_runner.Store.Lawful.Assigning.{Always-assign_job}
use grid_runner.Store.Lawful.JobMethods.{Always-get_job, Always-requeue_job}
use grid_runner.Store.Lawful.RunnerMethods.{Always-idle_runners, Always-reap_offline_runners}
use grid_runner.Queue.{Redis}
use grid_runner.World.Lawful.{Keeps, Keeps-preorder, keeps_rules}
use grid_runner.Service.{
  requeue_quietly, hand_over, place, assign, poll_queue, rescue, rescue_all, reap, start_up,
}

module _ ⦃R : Redis⦄ where
  Keeps-requeue_quietly : (id : String) → Always Keeps (requeue_quietly id)
  unfolding requeue_quietly
  Keeps-requeue_quietly id = search keeps_rules

  Keeps-hand_over : (id runner_id : String) → Always Keeps (hand_over id runner_id)
  unfolding hand_over
  Keeps-hand_over id runner_id = search (keeps_rules, Always-requeue_job, Keeps-requeue_quietly)

  Keeps-place : (id : String) (job : Job) (rs : List Runner) → Always Keeps (place id job rs)
  unfolding place
  Keeps-place id job rs =
      search (keeps_rules, Always-assign_job, Keeps-hand_over, Keeps-requeue_quietly)

  pub Keeps-assign : (heartbeat : ℕ) (id : String) → Always Keeps (assign heartbeat id)
  unfolding assign
  Keeps-assign heartbeat id =
      search (keeps_rules, Always-get_job, Always-idle_runners, Keeps-place, Keeps-requeue_quietly)

  pub Keeps-poll_queue : (heartbeat : ℕ) → Always Keeps (poll_queue heartbeat)
  unfolding poll_queue
  Keeps-poll_queue heartbeat = search (keeps_rules, Keeps-assign)

  Keeps-rescue : (id : String) → Always Keeps (rescue id)
  unfolding rescue
  Keeps-rescue id = search (keeps_rules, Always-requeue_job)

  Keeps-rescue_all : (rest : List (String × String)) → Always Keeps (rescue_all rest)
  unfolding rescue_all
  Keeps-rescue_all [] = Always-pure Keeps-preorder tt
  Keeps-rescue_all ((runner_id, id) ∷ rest) =
      Always-bind _ _ Keeps-preorder (Keeps-rescue id) (λ _. Keeps-rescue_all rest)

  pub Keeps-reap : (heartbeat : ℕ) → Always Keeps (reap heartbeat)
  unfolding reap
  Keeps-reap heartbeat = search (keeps_rules, Always-reap_offline_runners, Keeps-rescue_all)

  pub Keeps-start_up : Always Keeps start_up
  unfolding start_up
  Keeps-start_up = search keeps_rules
