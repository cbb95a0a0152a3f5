-- ===== src/Server/Guarded.antt =====
-- internal/api/server.go, Routes: what a request without any credential can do.
use grid_runner.Prelude.{
  ◌≡◌, refl, ap, ◌⊎◌, inl, inr, String, Bool, true, false, List, [], ◌∷◌, ltb, length, ◌==◌,
  Bool-cases,
}
use grid_runner.Fallible.{Err, Result, ok, err}
use grid_runner.Exec.{Exec, pure, choose, handle, from_option, ◌>>=◌}
use grid_runner.Github.{verify_signature}
use grid_runner.Store.{Store, Outcome, done, refused, lost, statement, answer}
use grid_runner.Store.Statements.{get_job}
use grid_runner.Store.Creation.{list_jobs}
use grid_runner.Store.Jobs.{get_logs}
use grid_runner.Store.Runners.{list_runners, get_runner}
use grid_runner.Queue.{Redis}
use grid_runner.World.{World, in_store, from_result}
use grid_runner.World.Calm.{IsUntouched}
use grid_runner.Api.{Request, Response}
use grid_runner.Api.Jobs.{handle_list_jobs, handle_get_job, handle_get_job_logs}
use grid_runner.Api.Runners.{handle_register, handle_list_runners, handle_get_runner}
use grid_runner.Api.Webhook.{handle_webhook}
use grid_runner.Api.Access.{IsForged, with_runner_auth-forged}
use grid_runner.Server.{
  Endpoint, health, ready, webhook, register, beat, poll, start, log, result, cancel, Routed, found,
  method_not_allowed, page_not_found, routes, select, Surprise, Server, HttpRequest, serve_endpoint,
  serve_routed, serve,
}

module _ ⦃R : Redis⦄ where
  untouched : (w : World) → IsUntouched w w
  untouched w = record { jobs = refl; runners = refl; db = refl }

  abbrev KeepsTables : Store → Store → Type 0
  KeepsTables s t = (t.jobs ≡ s.jobs) × (t.runners ≡ s.runners)

  -- A SELECT, and an answer that is made from it.
  select_keeps :
      {A : Type 0} (g : Store → Result A) (s : Store) (os : List Outcome)
      → KeepsTables s (answer os (λ s. (g s, s)) s).1
  unfolding answer
  select_keeps g s [] = (refl, refl)
  select_keeps g s (done ∷ rest) = (refl, refl)
  select_keeps g s (refused ∷ rest) = (refl, refl)
  select_keeps g s (lost ∷ rest) = (refl, refl)

  answered-IsUntouched :
      {A : Type 0} (m : Exec Store A) (f : A → Response) (h : Err → Response) (w : World)
      → KeepsTables w.store (m w.store).1
      → IsUntouched w (handle (in_store m) (λ a. pure (f a)) (λ e. pure (h e)) w).1
  unfolding handle in_store pure
  answered-IsUntouched m f h w keeps = go (m w.store).0 (m w.store).1 refl
    where
      go :
          (r : Result _) (t : Store)
          → m w.store ≡ (r, t)
          → IsUntouched w (handle (in_store m) (λ a. pure (f a)) (λ e. pure (h e)) w).1
      go (ok a) t e =
          let (jobs, runners) = rw e at keeps in
          record { jobs = rw e jobs; runners = rw e runners; db = rw e refl }
      go (err x) t e =
          let (jobs, runners) = rw e at keeps in
          record { jobs = rw e jobs; runners = rw e runners; db = rw e refl }

  choose-IsUntouched :
      (b : Bool) (a : Response) (m : Exec World Response) (w : World)
      → b ≡ true
      → IsUntouched w (choose b (pure a) m w).1
  unfolding choose pure
  choose-IsUntouched b a m w e = rw e (untouched w)

  -- Neither the registration token, nor the signature of a webhook, nor the token of a runner.
  pub record IsOutsider (S : Server) (r : Request) (w : World) : Type 0 where
    pub unregistered : (r.registration_token == S.registration_token) ≡ false
    pub unsigned :
        (e : Err) × (verify_signature S.codec.crypto S.webhook_secret r.body r.signature ≡ err e)
    pub forged : (value : String) → IsForged S.codec (record r { path_id = value }) w

  handle_webhook-IsUntouched :
      (S : Server) (id : String) (r : Request) (w : World)
      → IsOutsider S r w
      → IsUntouched w (handle_webhook S.codec S.webhook_secret id r w).1
  unfolding handle_webhook from_option from_result handle pure
  handle_webhook-IsUntouched S id r w out =
      let (e, bad) = out.unsigned in
      elim (Bool-cases (ltb 1048576 (length r.body))) [
        | inl large ↦ rw large (untouched w)
        | inr fits ↦ rw (fits, bad) (untouched w)
      ]

  module _ (S : Server) (F : Surprise) where
    serve_endpoint-IsUntouched :
        (e : Endpoint) (value : String) (r : Request) (w : World)
        → IsOutsider S r w
        → (e ≡ cancel) ⊎ IsUntouched w (serve_endpoint S F e (record r { path_id = value }) w).1
    unfolding serve_endpoint pure handle_register handle_list_jobs handle_get_job
        handle_get_job_logs handle_list_runners handle_get_runner list_jobs get_job get_logs
        list_runners get_runner statement
    serve_endpoint-IsUntouched health value r w out = inr (untouched w)
    serve_endpoint-IsUntouched ready value r w out = inr (untouched w)
    serve_endpoint-IsUntouched webhook value r w out = inr (
        handle_webhook-IsUntouched S F.job_id (record r { path_id = value }) w
          (record {
            unregistered = out.unregistered;
            unsigned = out.unsigned;
            forged = out.forged;
          }))
    serve_endpoint-IsUntouched register value r w out =
        inr (choose-IsUntouched _ _ _ w (rw out.unregistered refl))
    serve_endpoint-IsUntouched beat value r w out =
        inr (with_runner_auth-forged S.codec _ _ w (out.forged value)).1
    serve_endpoint-IsUntouched poll value r w out =
        inr (with_runner_auth-forged S.codec _ _ w (out.forged value)).1
    serve_endpoint-IsUntouched start value r w out =
        inr (with_runner_auth-forged S.codec _ _ w (out.forged value)).1
    serve_endpoint-IsUntouched log value r w out =
        inr (with_runner_auth-forged S.codec _ _ w (out.forged value)).1
    serve_endpoint-IsUntouched result value r w out =
        inr (with_runner_auth-forged S.codec _ _ w (out.forged value)).1
    serve_endpoint-IsUntouched Endpoint.list_runners value r w out =
        inr (answered-IsUntouched _ _ _ w (select_keeps _ w.store w.store.outcomes))
    serve_endpoint-IsUntouched Endpoint.get_runner value r w out =
        inr (answered-IsUntouched _ _ _ w (select_keeps _ w.store w.store.outcomes))
    serve_endpoint-IsUntouched Endpoint.list_jobs value r w out =
        inr (answered-IsUntouched _ _ _ w (select_keeps _ w.store w.store.outcomes))
    serve_endpoint-IsUntouched Endpoint.get_job value r w out =
        inr (answered-IsUntouched _ _ _ w (select_keeps _ w.store w.store.outcomes))
    serve_endpoint-IsUntouched Endpoint.get_job_logs value r w out =
        inr (answered-IsUntouched _ _ _ w (select_keeps _ w.store w.store.outcomes))
    serve_endpoint-IsUntouched cancel value r w out = inl refl

    serve_routed-IsUntouched :
        (q : Routed) (r : Request) (w : World)
        → IsOutsider S r w
        → ((value : String) × (q ≡ found cancel value)) ⊎ IsUntouched w (serve_routed S F q r w).1
    unfolding serve_routed pure
    serve_routed-IsUntouched method_not_allowed r w out = inr (untouched w)
    serve_routed-IsUntouched page_not_found r w out = inr (untouched w)
    serve_routed-IsUntouched (found e value) r w out =
        elim (serve_endpoint-IsUntouched e value r w out) [
          | inl same ↦ inl (value, ap (λ x. found x value) same)
          | inr kept ↦ inr kept
        ]

    -- The state after `serve` is the state after the handler.
    serve_state :
        (q : HttpRequest) (w : World)
        → IsUntouched w (serve_routed S F (select q.method q.path routes false) q.request w).1
        → IsUntouched w (serve S F q w).1
    unfolding serve ◌>>=◌ pure
    serve_state q w h =
        go (serve_routed S F (select q.method q.path routes false) q.request w).0
          (serve_routed S F (select q.method q.path routes false) q.request w).1 refl h
      where
        go :
            (a : Result Response) (v : World)
            → serve_routed S F (select q.method q.path routes false) q.request w ≡ (a, v)
            → IsUntouched w (serve_routed S F (select q.method q.path routes false) q.request w).1
            → IsUntouched w (serve S F q w).1
        go (ok a) v e h = rw e (rw e at h)
        go (err x) v e h = rw e (rw e at h)

    -- A request without a credential changes no table and no queue, on whatever path and however
    -- PostgreSQL and Redis answer, unless it is routed to the cancellation of a job: it has neither
    -- the registration token, nor the signature of a webhook, nor the token of the runner that it
    -- presents.
    pub serve-IsUntouched :
        (q : HttpRequest) (w : World)
        → IsOutsider S q.request w
        → ((value : String) × (select q.method q.path routes false ≡ found cancel value))
          ⊎ IsUntouched w (serve S F q w).1
    serve-IsUntouched q w out =
        elim (serve_routed-IsUntouched (select q.method q.path routes false) q.request w out) [
          | inl away ↦ inl away
          | inr kept ↦ inr (serve_state q w kept)
        ]
