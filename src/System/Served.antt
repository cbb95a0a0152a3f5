-- ===== src/System/Served.antt =====
-- internal/api/server.go and internal/scheduler/service.go, Run: the server and the scheduler on any
-- sequence of requests, passes, ticks and answers.
use grid_runner.Prelude.{ℕ, ◌+◌, ◌≡◌, refl, sym, ap, ◌∙◌, false, List, [], ◌∷◌, arith}
use mathlib.Core.Path.{subst}
use grid_runner.Fallible.{Err, Result, ok, err}
use grid_runner.Exec.{Exec, pure, handle}
use grid_runner.Store.{Store, Outcome, done, refused, lost, statement, answer}
use grid_runner.Store.Statements.{get_job}
use grid_runner.Store.Creation.{list_jobs}
use grid_runner.Store.Jobs.{get_logs}
use grid_runner.Store.Runners.{list_runners, get_runner}
use grid_runner.Queue.{Redis}
use grid_runner.World.{World, in_store}
use grid_runner.Api.{Codec, Request, Response}
use grid_runner.Api.Jobs.{handle_list_jobs, handle_get_job, handle_get_job_logs}
use grid_runner.Api.Runners.{handle_list_runners, handle_get_runner}
use grid_runner.Server.{
  Endpoint, health, ready, Routed, found, method_not_allowed, page_not_found, routes, select,
  Surprise, Server, HttpRequest, serve_endpoint, serve_routed, serve,
}
use grid_runner.Server.Matching.{serve_world}
use grid_runner.System.{
  Turn, webhook, register, beat, poll, start, log, result, cancel, schedule_round, reap_tick,
  scheduler_start, passes, Run, here, next,
}
use grid_runner.System.Safety.{run-IsSound, run-HasKeys}
use grid_runner.Store.History.{IsSound}
use grid_runner.Store.Keys.{HasKeys}
use grid_runner.Service.{poll_queue, reap, start_up}

-- What comes to the processes: a request, with all that is drawn and answered for it; a pass of the
-- scheduler's loop, a tick of its reaper, its start; and time, with the next answers of PostgreSQL and
-- Redis.
pub data Happening : Type 0 where
  request : Surprise → HttpRequest → Happening
  pass tick restart : Happening
  elapse : ℕ → List Outcome → List Outcome → Happening

module _ ⦃R : Redis⦄ where
  unfoldable pub happen : Server → ℕ → Happening → World → World
  happen S heartbeat (request F q) w = (serve S F q w).1
  happen S heartbeat pass w = (poll_queue heartbeat w).1
  happen S heartbeat tick w = (reap heartbeat w).1
  happen S heartbeat restart w = (start_up w).1
  happen S heartbeat (elapse d os qs) w = record w {
    store = record w.store { now = w.store.now + d; outcomes = os };
    broker = record w.broker { outcomes = qs };
  }

  unfoldable pub deploy : Server → ℕ → List Happening → World → World
  deploy S heartbeat [] w = w
  deploy S heartbeat (h ∷ hs) w = deploy S heartbeat hs (happen S heartbeat h w)

  pub one : (C : Codec) {w v : World} → Turn C w v → Run C w v
  one C t = next here t

  answered_world :
      {A : Type 0} (m : Exec Store A) (f : A → Response) (h : Err → Response) (w : World)
      → (handle (in_store m) (λ a. pure (f a)) (λ e. pure (h e)) w).1
        ≡ record w { store = (m w.store).1 }
  unfolding handle in_store pure
  answered_world m f h w = go (m w.store).0 (m w.store).1 refl
    where
      go :
          (r : Result _) (t : Store)
          → m w.store ≡ (r, t)
          → (handle (in_store m) (λ a. pure (f a)) (λ e. pure (h e)) w).1
            ≡ record w { store = (m w.store).1 }
      go (ok a) t e = rw e refl
      go (err x) t e = rw e refl

  -- A SELECT takes an answer of PostgreSQL, and nothing else happens.
  select_store :
      {A : Type 0} (g : Store → Result A) (os : List Outcome) (s : Store)
      → (rest : List Outcome) × ((answer os (λ s. (g s, s)) s).1 ≡ record s { outcomes = rest })
  unfolding answer
  select_store g [] s = (s.outcomes, refl)
  select_store g (done ∷ rest) s = (rest, refl)
  select_store g (refused ∷ rest) s = (rest, refl)
  select_store g (lost ∷ rest) s = (rest, refl)

  select-Run :
      {A : Type 0} (C : Codec) (g : Store → Result A) (f : A → Response) (h : Err → Response)
      (w : World)
      → Run C w
          (handle (in_store (statement (λ s. (g s, s)))) (λ a. pure (f a)) (λ e. pure (h e)) w).1
  unfolding statement
  select-Run C g f h w =
      let (rest, same) = select_store g w.store.outcomes w.store in
      let left =
        answered_world (statement (λ s. (g s, s))) f h w ∙ ap (λ t. record w { store = t }) same in
      subst (Run C w) (sym left) (one C (passes w.store.now rest w.broker.outcomes (omega arith)))

  module _ (S : Server) (F : Surprise) where
    serve_endpoint-Run :
        (e : Endpoint) (r : Request) (w : World) → Run S.codec w (serve_endpoint S F e r w).1
    unfolding serve_endpoint pure handle_list_jobs handle_get_job handle_get_job_logs
        handle_list_runners handle_get_runner list_jobs get_job get_logs list_runners get_runner
    serve_endpoint-Run health r w = here
    serve_endpoint-Run ready r w = here
    serve_endpoint-Run Endpoint.webhook r w = one S.codec (webhook S.webhook_secret F.job_id r)
    serve_endpoint-Run Endpoint.register r w =
        one S.codec (register S.registration_token F.runner_id F.runner_token r)
    serve_endpoint-Run Endpoint.beat r w = one S.codec (beat r)
    serve_endpoint-Run Endpoint.poll r w = one S.codec (poll F.clone_token F.client_gone r)
    serve_endpoint-Run Endpoint.start r w = one S.codec (start r)
    serve_endpoint-Run Endpoint.log r w = one S.codec (log r)
    serve_endpoint-Run Endpoint.result r w = one S.codec (result r)
    serve_endpoint-Run Endpoint.list_runners r w = select-Run S.codec _ _ _ w
    serve_endpoint-Run Endpoint.get_runner r w = select-Run S.codec _ _ _ w
    serve_endpoint-Run Endpoint.list_jobs r w = select-Run S.codec _ _ _ w
    serve_endpoint-Run Endpoint.get_job r w = select-Run S.codec _ _ _ w
    serve_endpoint-Run Endpoint.get_job_logs r w = select-Run S.codec _ _ _ w
    serve_endpoint-Run Endpoint.cancel r w = one S.codec (cancel r)

    serve_routed-Run :
        (q : Routed) (r : Request) (w : World) → Run S.codec w (serve_routed S F q r w).1
    unfolding serve_routed pure
    serve_routed-Run (found e value) r w = serve_endpoint-Run e (record r { path_id = value }) w
    serve_routed-Run method_not_allowed r w = here
    serve_routed-Run page_not_found r w = here

    serve-Run : (q : HttpRequest) (w : World) → Run S.codec w (serve S F q w).1
    serve-Run q w =
        subst (Run S.codec w) (sym (serve_world S F q w))
          (serve_routed-Run (select q.method q.path routes false) q.request w)

  pub Run-trans : (C : Codec) {w v u : World} → Run C w v → Run C v u → Run C w u
  Run-trans C p here = p
  Run-trans C p (next q t) = next (Run-trans C p q) t

  happen-Run :
      (S : Server) (heartbeat : ℕ) (h : Happening) (w : World)
      → Run S.codec w (happen S heartbeat h w)
  unfolding happen
  happen-Run S heartbeat (request F q) w = serve-Run S F q w
  happen-Run S heartbeat pass w = one S.codec (schedule_round heartbeat)
  happen-Run S heartbeat tick w = one S.codec (reap_tick heartbeat)
  happen-Run S heartbeat restart w = one S.codec scheduler_start
  happen-Run S heartbeat (elapse d os qs) w =
      one S.codec (passes (w.store.now + d) os qs (omega arith))

  deploy-Run :
      (S : Server) (heartbeat : ℕ) (hs : List Happening) (w : World)
      → Run S.codec w (deploy S heartbeat hs w)
  unfolding deploy
  deploy-Run S heartbeat [] w = here
  deploy-Run S heartbeat (h ∷ hs) w =
      Run-trans S.codec (happen-Run S heartbeat h w)
        (deploy-Run S heartbeat hs (happen S heartbeat h w))

  -- From empty tables, whatever requests the server gets, on any paths and with any headers, whatever
  -- the scheduler does in between, and however PostgreSQL and Redis answer: the state is one that the
  -- turns of System reach, every row makes sense, and no two jobs share an id, nor two unfinished jobs
  -- a repository, commit and event.
  pub deploy-IsSound :
      (S : Server) (heartbeat : ℕ) (hs : List Happening) (w : World)
      → w.store.jobs ≡ []
      → w.store.runners ≡ []
      → let v = deploy S heartbeat hs w in Run S.codec w v × IsSound v.store × HasKeys v.store.jobs
  deploy-IsSound S heartbeat hs w no_jobs no_runners =
      let reached = deploy-Run S heartbeat hs w in
      (
        reached,
        run-IsSound S.codec w _ reached
            (record { jobs = rw no_jobs tt; runners = rw no_runners tt }),
        run-HasKeys S.codec w _ reached (rw no_jobs tt),
      )
