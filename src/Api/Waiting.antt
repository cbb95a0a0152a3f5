-- ===== src/Api/Waiting.antt =====
-- internal/api: the handlers that make no job QUEUED and take no id out of the queue.
use grid_runner.Prelude.{
  ◌≡◌, ◌⊎◌, inl, inr, refl, sym, ap, ◌∙◌, String, Bool, false, Option, none, some, List, [], ◌∷◌,
  ◌++◌,
}
use mathlib.Core.Path.{subst}
use grid_runner.Fallible.{Result, ok, err}
use grid_runner.Exec.{Exec, from_option}
use grid_runner.Exec.Always.{
  IsPreorder, Always, Always-pure, Always-bind, Always-handle, Always-choose, Always-from_option,
  always_rules,
}
use grid_runner.Models.{
  JobStatus, queued, assigned, running, success, failed, cancelled, parse_job_status, job_status_eq,
}
use grid_runner.Store.{Store, Outcome, done, refused, lost}
use grid_runner.Store.Candidates.{Has}
use grid_runner.Store.Waiting.{
  QueuesNone, QueuesNone-preorder, QueuesNone-get_job, QueuesNone-start_job,
  QueuesNone-complete_job, QueuesNone-cancel_job, QueuesNone-append_logs,
  QueuesNone-register_runner, QueuesNone-heartbeat, QueuesNone-runner_token_hash,
}
use grid_runner.Queue.{Redis, Broker, pending_key, runner_key, receive, command, reply}
use grid_runner.Queue.Keys.{runner_key-ne-pending}
use grid_runner.Queue.Laws.{pending}
use grid_runner.World.{World, in_store, in_broker, ignore, from_result}
use grid_runner.Api.{
  Codec, Request, ResultRequest, RegisterRequest, Response, Handler, with_runner_auth,
  runner_owns_job,
}
use grid_runner.Api.Jobs.{
  handle_cancel_job, handle_job_start, handle_job_logs, handle_job_result, finish_job, reported,
}
use grid_runner.Api.Runners.{
  register_with, handle_register, lease_lost, answer_heartbeat, handle_heartbeat, handle_poll_job,
}

pub snoc-cases :
    (l : List String) → (l ≡ []) ⊎ ((xs : List String) × (x : String) × (l ≡ xs ++ x ∷ []))
snoc-cases [] = inl refl
snoc-cases (y ∷ l) = elim (snoc-cases l) [
  | inl e ↦ inr ([], y, ap (λ k. y ∷ k) e)
  | inr (xs, x, e) ↦ inr (y ∷ xs, x, ap (λ k. y ∷ k) e)
]

module _ ⦃R : Redis⦄ where
  pub record Leaves (w v : World) : Type 0 where
    pub store : QueuesNone w.store v.store
    pub queue : (id : String) → Has id (pending w.broker.db) → Has id (pending v.broker.db)

  pub Leaves-preorder : IsPreorder Leaves
  Leaves-preorder = record {
    stays = λ w. record { store = QueuesNone-preorder.stays w.store; queue = λ id h. h };
    joins = λ w v u p q. record {
      store = QueuesNone-preorder.joins w.store v.store u.store p.store q.store;
      queue = λ id h. q.queue id (p.queue id h);
    };
  }

  module _ {A : Type 0} where
    pub Leaves-in_store : (m : Exec Store A) → Always QueuesNone m → Always Leaves (in_store m)
    unfolding in_store
    Leaves-in_store m h = record { at = λ w. record { store = h.at w.store; queue = λ id q. q } }

    pub Leaves-from_result : (r : Result A) → Always Leaves (from_result r)
    unfolding from_result
    Leaves-from_result r = record { at = Leaves-preorder.stays }

    pub Leaves-ignore : (m : Exec World A) → Always Leaves m → Always Leaves (ignore m)
    unfolding ignore
    Leaves-ignore m h =
        Always-handle _ _ _ Leaves-preorder h (λ _. Always-pure Leaves-preorder tt)
          (λ _. Always-pure Leaves-preorder tt)

  -- A mailbox is not the queue.
  mailbox_popped :
      (runner_id : String) (d : R.Db)
      → (R.brpop (runner_key runner_id) d ≡ none)
        ⊎ ((x : String) × (e : R.Db) × (R.brpop (runner_key runner_id) d ≡ some (x, e))
            × (pending e ≡ pending d))
  mailbox_popped runner_id d = elim (snoc-cases (R.list d (runner_key runner_id))) [
    | inl none_there ↦ inl (R.brpop_empty (runner_key runner_id) d none_there)
    | inr (xs, x, mail) ↦
        let (e, popped, lists) = R.brpop_last (runner_key runner_id) d xs x mail in
        inr (x, e, popped, lists pending_key ∙ simp (runner_key-ne-pending runner_id))
  ]

  command_leaves :
      {A : Type 0} (m : Exec Broker A)
      → ((b : Broker) (id : String) → Has id (pending b.db) → Has id (pending (m b).1.db))
      → (b : Broker) (id : String) → Has id (pending b.db)
      → Has id (pending (command m b).1.db)
  unfolding command reply
  command_leaves m h b id q = go b.outcomes
    where
      go : (os : List Outcome) → Has id (pending (reply os m b).1.db)
      go [] = h b id q
      go (done ∷ rest) = h (record b { outcomes = rest }) id q
      go (refused ∷ rest) = q
      go (lost ∷ rest) = h (record b { outcomes = rest }) id q

  Leaves-receive : (runner_id : String) → Always Leaves (in_broker (receive runner_id))
  unfolding in_broker receive
  Leaves-receive runner_id = record {
    at = λ w. record {
      store = QueuesNone-preorder.stays w.store;
      queue =
          command_leaves _
            (λ b id q. elim (mailbox_popped runner_id b.db) [
              | inl e ↦ rw e q
              | inr (x, d, e, same) ↦ rw e (subst (Has id) (sym same) q)
            ])
            w.broker;
    };
  }

  ruleset leaves_rules = (
    always_rules, Leaves-preorder, Leaves-in_store, Leaves-from_result, Leaves-ignore,
    QueuesNone-get_job,
  )

  pub Leaves-with_runner_auth :
      (C : Codec) (next : Handler) (r : Request)
      → Always Leaves (next r)
      → Always Leaves (with_runner_auth C next r)
  unfolding with_runner_auth
  Leaves-with_runner_auth C next r h = search (leaves_rules, QueuesNone-runner_token_hash)

  Leaves-runner_owns_job : (r : Request) (id : String) → Always Leaves (runner_owns_job r id)
  unfolding runner_owns_job
  Leaves-runner_owns_job r id = search leaves_rules

  pub Leaves-handle_cancel_job : (r : Request) → Always Leaves (handle_cancel_job r)
  unfolding handle_cancel_job
  Leaves-handle_cancel_job r = search (leaves_rules, QueuesNone-cancel_job)

  pub Leaves-handle_job_start : (r : Request) → Always Leaves (handle_job_start r)
  unfolding handle_job_start
  Leaves-handle_job_start r =
      search (leaves_rules, Leaves-runner_owns_job, QueuesNone-start_job) depth 8

  pub Leaves-handle_job_logs : (r : Request) → Always Leaves (handle_job_logs r)
  unfolding handle_job_logs
  Leaves-handle_job_logs r =
      search (leaves_rules, Leaves-runner_owns_job, QueuesNone-append_logs) depth 8

  Leaves-finish_job :
      (r : Request) (req : ResultRequest) (to : JobStatus)
      → job_status_eq to queued ≡ false
      → Always Leaves (finish_job r req to)
  unfolding finish_job
  Leaves-finish_job r req to away = search (leaves_rules, QueuesNone-complete_job) depth 8

  Leaves-reported :
      (r : Request) (req : ResultRequest) (o : Option JobStatus) (refusal : Exec World Response)
      → Always Leaves refusal
      → Always Leaves (from_option (reported o) refusal (finish_job r req))
  unfolding from_option
  Leaves-reported r req none refusal h = h
  Leaves-reported r req (some success) refusal h = Leaves-finish_job r req success refl
  Leaves-reported r req (some failed) refusal h = Leaves-finish_job r req failed refl
  Leaves-reported r req (some queued) refusal h = h
  Leaves-reported r req (some assigned) refusal h = h
  Leaves-reported r req (some running) refusal h = h
  Leaves-reported r req (some cancelled) refusal h = h

  pub Leaves-handle_job_result : (C : Codec) (r : Request) → Always Leaves (handle_job_result C r)
  unfolding handle_job_result
  Leaves-handle_job_result C r =
      Always-bind _ _ Leaves-preorder (Leaves-runner_owns_job r r.path_id) λ owns.
        Always-choose _ _ _ (λ _. Always-pure Leaves-preorder _)
          (λ _. Always-from_option _ _ _ (Always-pure Leaves-preorder _) (λ req.
            Leaves-reported r req (parse_job_status req.status) _ (Always-pure Leaves-preorder _)))

  Leaves-register_with :
      (C : Codec) (id : String) (token : Result String) (req : RegisterRequest)
      → Always Leaves (register_with C id token req)
  unfolding register_with
  Leaves-register_with C id (err e) req = Always-pure Leaves-preorder _
  Leaves-register_with C id (ok token) req = search (leaves_rules, QueuesNone-register_runner)

  pub Leaves-handle_register :
      (C : Codec) (secret id : String) (token : Result String) (r : Request)
      → Always Leaves (handle_register C secret id token r)
  unfolding handle_register
  Leaves-handle_register C secret id token r = search (leaves_rules, Leaves-register_with)

  Leaves-answer_heartbeat :
      (runner_id job_id : String) → Always Leaves (answer_heartbeat runner_id job_id)
  unfolding answer_heartbeat lease_lost
  Leaves-answer_heartbeat runner_id job_id = search leaves_rules depth 8

  pub Leaves-handle_heartbeat : (C : Codec) (r : Request) → Always Leaves (handle_heartbeat C r)
  unfolding handle_heartbeat
  Leaves-handle_heartbeat C r = search (leaves_rules, QueuesNone-heartbeat, Leaves-answer_heartbeat)

  pub Leaves-handle_poll_job :
      (clone_token : String → Result String) (gone : Bool) (r : Request)
      → Always Leaves (handle_poll_job clone_token gone r)
  unfolding handle_poll_job
  Leaves-handle_poll_job clone_token gone r = search (leaves_rules, Leaves-receive)
