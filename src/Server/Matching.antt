-- ===== src/Server/Matching.antt =====
-- internal/api/server.go, Routes: the route that a path is given, and the state that its handler leaves.
use grid_runner.Prelude.{◌≡◌, refl, ◌∙◌, String, Bool, true, false, none, some, List, [], ◌∷◌, ◌==◌}
use grid_runner.Fallible.{Result, ok, err}
use grid_runner.Exec.{Exec, pure, ◌>>=◌}
use grid_runner.Queue.{Redis}
use grid_runner.World.{World}
use grid_runner.Api.{Response}
use grid_runner.Server.{
  Server, Surprise, HttpRequest, serve_routed, serve, found, log, text, id as segment, Route,
  routes, match, takes, select,
}

abbrev pub logs_path : String → List String
logs_path id = "api" ∷ "v1" ∷ "jobs" ∷ id ∷ "logs" ∷ []

select_skip :
    (method : String) (path : List String) (r : Route) (rs : List Route) (known : Bool)
    → match r.pattern path "" ≡ none
    → select method path (r ∷ rs) known ≡ select method path rs known
unfolding select
select_skip method path r rs known e = rw (select, e) refl

select_hit :
    (method : String) (path : List String) (r : Route) (rs : List Route) (known : Bool)
    (value : String)
    → match r.pattern path "" ≡ some value
    → takes r.method method ≡ true
    → select method path (r ∷ rs) known ≡ found r.endpoint value
unfolding select
select_hit method path r rs known value e t = rw (select, e, t) refl

match_logs :
    (id : String)
    → (id == "") ≡ false
    → match (text "api" ∷ text "v1" ∷ text "jobs" ∷ segment ∷ text "logs" ∷ []) (logs_path id) ""
      ≡ some id
unfolding match
match_logs id named = rw named refl

match_start :
    (id : String)
    → (id == "") ≡ false
    → match (text "api" ∷ text "v1" ∷ text "jobs" ∷ segment ∷ text "start" ∷ []) (logs_path id) ""
      ≡ none
unfolding match
match_start id named = rw named refl

pub select-logs :
    (id : String) → (id == "") ≡ false → select "POST" (logs_path id) routes false ≡ found log id
unfolding match
select-logs id named =
    select_skip "POST" (logs_path id) _ _ false refl
    ∙ select_skip "POST" (logs_path id) _ _ false refl
    ∙ select_skip "POST" (logs_path id) _ _ false refl
    ∙ select_skip "POST" (logs_path id) _ _ false refl
    ∙ select_skip "POST" (logs_path id) _ _ false refl
    ∙ select_skip "POST" (logs_path id) _ _ false refl
    ∙ select_skip "POST" (logs_path id) _ _ false (match_start id named)
    ∙ select_hit "POST" (logs_path id) _ _ false id (match_logs id named) refl

module _ ⦃R : Redis⦄ (S : Server) (F : Surprise) where
  abbrev handled : HttpRequest → Exec World Response
  handled q = serve_routed S F (select q.method q.path routes false) q.request

  -- What is around the handler changes no state.
  pub serve_world :
      (q : HttpRequest) (w : World)
      → (serve S F q w).1 ≡ (serve_routed S F (select q.method q.path routes false) q.request w).1
  unfolding serve ◌>>=◌ pure
  serve_world q w = go (handled q w).0 (handled q w).1 refl
    where
      go :
          (a : Result Response) (v : World)
          → handled q w ≡ (a, v)
          → (serve S F q w).1 ≡ (handled q w).1
      go (ok a) v e = rw e refl
      go (err x) v e = rw e refl
