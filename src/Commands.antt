-- ===== src/Commands.antt =====
-- cmd/api/main.go: from the start of the control plane to the end of its process. Connecting to
-- PostgreSQL and Redis, listening and shutting down are parameters.
pub mod Scheduler
pub mod Runner
use grid_runner.Prelude.{
  ℕ, zero, suc, ◌≡◌, refl, ap, ◌∙◌, ◌⊎◌, String, Option, none, some, List, [], ◌∷◌, ℤ, pos, negsuc,
}
use grid_runner.Fallible.{Err, Result, ok, err}
use grid_runner.Config.{Config, validate}
use grid_runner.Migrations.{
  Engine, Files, Tables, Database, migrate, rollback, applied_migrations, up_migrations,
}
use grid_runner.Migrations.Completion.{AllRecorded, migrate-once}
use grid_runner.Github.Choice.{
  Client, http_client, Options, configure, key_pem, configure-http_client,
}

-- What the process meets.
pub record Surroundings : Type 0 where
  pub connect_postgres : String → Result (Unit {0})
  pub connect_redis : String → Result (Unit {0})
  pub read : String → Result String
  pub parse_private_key : String → Result (Unit {0})
  -- `ListenAndServe`, when it ends before a signal, and `Shutdown`
  pub listening : Option Err
  pub shut_down : Result (Unit {0})

pub data Event : Type 0 where
  listens : String → Client → Event
  fails_to_listen : Err → Event

-- The exit code of the process, and its events.
pub record Process : Type 0 where
  pub exit_code : ℕ
  pub events : List Event

abbrev exit : ℕ → Process
exit code = record { exit_code = code; events = [] }

abbrev pub credentials : {F : Type 0} → Config F → Options
credentials cfg = record {
  app_id = cfg.github_app_id;
  private_key_pem = cfg.github_app_private_key;
  private_key_path = cfg.github_app_private_key_path;
  token = cfg.github_token;
}

abbrev exit_of : Result (Unit {0}) → ℕ
exit_of (ok _) = 0
exit_of (err e) = 1

abbrev pub listen_events : String → Client → Option Err → List Event
listen_events port client none = listens port client ∷ []
listen_events port client (some e) = listens port client ∷ fails_to_listen e ∷ []

module _ (E : Engine) (files : Files) (O : Surroundings) {F : Type 0} (cfg : Config F) where
  -- A failure to listen cancels the context, as a signal does.
  unfoldable pub serve : Client → Process
  serve client = record {
    exit_code = exit_of O.shut_down;
    events = listen_events cfg.server_port client O.listening;
  }

  abbrev pub with_client : Result (Client × String) → Process
  with_client (err e) = exit 1
  with_client (ok (client, mode)) = serve client

  abbrev pub with_redis : Result (Unit {0}) → Process
  with_redis (err e) = exit 1
  with_redis (ok _) = with_client (configure O.read O.parse_private_key (credentials cfg))

  abbrev pub migrated : Result (Unit {0}) × Database E → Process × Database E
  migrated (err e, s) = (exit 1, s)
  migrated (ok _, s) = (with_redis (O.connect_redis cfg.redis_url), s)

  abbrev pub rolled_back : Result (Unit {0}) × Database E → Process × Database E
  rolled_back (err e, s) = (exit 1, s)
  rolled_back (ok _, s) = (exit 0, (applied_migrations E s).1)

  -- The flag -rollback; zero is its default.
  abbrev pub with_postgres : ℤ → Result (Unit {0}) → Database E → Process × Database E
  with_postgres steps (err e) s = (exit 1, s)
  with_postgres (pos (suc n)) (ok _) s = rolled_back (rollback E files (suc n) s)
  with_postgres (pos zero) (ok _) s = migrated (migrate E files s)
  with_postgres (negsuc n) (ok _) s = migrated (migrate E files s)

  abbrev pub valid : ℤ → Result (Unit {0}) → Database E → Process × Database E
  valid steps (err e) s = (exit 1, s)
  valid steps (ok _) s = with_postgres steps (O.connect_postgres cfg.database_url) s

  unfoldable pub api_main : ℤ → Database E → Process × Database E
  api_main steps s = valid steps (validate cfg) s

  abbrev pub IsReady : Client → Tables E → Type 0
  IsReady client t =
      AllRecorded E (up_migrations files) t.versions
      × ((token : String)
          → client ≡ http_client token
          → (cfg.github_app_id ≡ "")
            ⊎ (key_pem O.read O.parse_private_key (credentials cfg) ≡ ok ""))

  abbrev pub Starts : Client → Process → Type 0
  Starts client p = (port : String) × (rest : List Event) × (p.events ≡ listens port client ∷ rest)

  exits-Starts : (client : Client) (code : ℕ) → Starts client (exit code) → ⊥
  exits-Starts client code (port, rest, h) = cc

  with_redis-client :
      (client : Client) (r : Result (Unit {0}))
      → Starts client (with_redis r)
      → (mode : String) × (configure O.read O.parse_private_key (credentials cfg)
          ≡ ok (client, mode))
  unfolding serve
  with_redis-client client (err e) (port, rest, h) = absurd (cc)
  with_redis-client client (ok _) (port, rest, h) =
      go (configure O.read O.parse_private_key (credentials cfg)) refl h
    where
      same_client :
          (c : Client) (listening : Option Err)
          → listen_events cfg.server_port c listening ≡ listens port client ∷ rest
          → c ≡ client
      same_client c none e = cc
      same_client c (some x) e = cc

      go :
          (r : Result (Client × String))
          → configure O.read O.parse_private_key (credentials cfg) ≡ r
          → (with_client r).events ≡ listens port client ∷ rest
          → (mode : String) × (configure O.read O.parse_private_key (credentials cfg)
              ≡ ok (client, mode))
      go (err e) same h = absurd (cc)
      go (ok (c, mode)) same h = (mode, same ∙ ap (λ x. ok (x, mode)) (same_client c O.listening h))

  migrated-IsReady :
      (client : Client) (s : Database E)
      → Starts client (migrated (migrate E files s)).0
      → IsReady client (migrated (migrate E files s)).1.tables
  migrated-IsReady client s = go (migrate E files s).0 (migrate E files s).1 refl
    where
      go :
          (r : Result (Unit {0})) (u : Database E)
          → migrate E files s ≡ (r, u)
          → Starts client (migrated (r, u)).0
          → IsReady client (migrated (r, u)).1.tables
      go (err e) u same (port, rest, h) = absurd (cc)
      go (ok _) u same starts =
          let (all, again) = migrate-once E files s (ap (λ p. p.0) same) in
          let (mode, chosen) = with_redis-client client (O.connect_redis cfg.redis_url) starts in
          (
            rw same at all,
            λ token is.
                configure-http_client O.read O.parse_private_key (credentials cfg) token mode
                  (rw is at chosen),
          )

  -- The control plane listens only when PostgreSQL holds a record of every forward migration; and
  -- then it acts with a personal access token only when no App id or no key of an App is set.
  pub api_main-IsReady :
      (steps : ℤ) (s : Database E) (client : Client)
      → Starts client (api_main steps s).0
      → IsReady client (api_main steps s).1.tables
  unfolding api_main
  api_main-IsReady steps s client = config (validate cfg)
    where
      undone : (out : Result (Unit {0}) × Database E) → Starts client (rolled_back out).0 → ⊥
      undone (err e, u) starts = exits-Starts client 1 starts
      undone (ok _, u) starts = exits-Starts client 0 starts

      connected :
          (steps : ℤ) (r : Result (Unit {0}))
          → Starts client (with_postgres steps r s).0
          → IsReady client (with_postgres steps r s).1.tables
      connected steps (err e) starts = absurd (exits-Starts client 1 starts)
      connected (pos (suc n)) (ok _) starts = absurd (undone (rollback E files (suc n) s) starts)
      connected (pos zero) (ok _) starts = migrated-IsReady client s starts
      connected (negsuc n) (ok _) starts = migrated-IsReady client s starts

      config :
          (r : Result (Unit {0}))
          → Starts client (valid steps r s).0
          → IsReady client (valid steps r s).1.tables
      config (err e) starts = absurd (exits-Starts client 1 starts)
      config (ok _) starts = connected steps (O.connect_postgres cfg.database_url) starts
