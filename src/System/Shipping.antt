-- ===== src/System/Shipping.antt =====
-- The output of a build, from the log streamer of internal/runner through the requests of the agent,
-- the routes and the checks of internal/api to the table, when PostgreSQL answers every request.
use Prim.Native.String.{◌++◌ as ◌<>◌}
use grid_runner.Prelude.{
  ℕ, suc, ◌≤◌, ◌≡◌, refl, ◌∙◌, String, Bool, true, false, Option, none, some, List, [], ◌∷◌, ◌++◌,
  arith, map, ltb, leb, lt→ltb, length, ◌==◌, ◌||◌, not, if◌then◌else◌, itoa,
}
use grid_runner.Fallible.{ok}
use grid_runner.Exec.{pure, ◌>>=◌}
use grid_runner.Config.{Config}
use grid_runner.Store.{JobRow, RunnerRow}
use grid_runner.Store.Rows.{find_row, find_row-update_rows, find_row-passes}
use grid_runner.Store.Statements.{job_has_id, runner_has_id}
use grid_runner.Store.Columns.{max_int, is_text, takes_chunk}
use grid_runner.Store.LogAppends.{appended, fits, add_chunk}
use grid_runner.Queue.{Redis}
use grid_runner.World.{World}
use grid_runner.World.Calm.{calm}
use grid_runner.Api.{Body, Request, Response, failure}
use grid_runner.Api.Jobs.{handle_job_logs}
use grid_runner.Api.Numbers.{atoi-itoa}
use grid_runner.Api.Chunks.{
  trim_prefix-append, IsTrusted, with_runner_auth-calm, handle_job_logs-calm, handle_job_logs-large,
  handle_job_logs-broken,
}
use grid_runner.LogStream.Delivery.{joined}
use grid_runner.Runner.Protocol.{Codec, Agent, answer, request}
use grid_runner.Runner.Posts.{job_path, log_request, ship_logs}
use grid_runner.Server.{Surprise, Server, serve_endpoint, serve_routed, serve}
use grid_runner.Server.Matching.{logs_path, select-logs}
use grid_runner.System.Network.{received, sent_back}

-- The API refuses a chunk of more than 1 MiB, and PostgreSQL one that is no text.
abbrev is_large : ℕ × List ℕ → Bool
is_large (seq, chunk) = ltb 1048576 (length chunk)

abbrev pub kept : List (ℕ × List ℕ) → List (ℕ × List ℕ)
kept [] = []
kept (c ∷ cs) = if is_large c || not (is_text c.1) then kept cs else c ∷ kept cs

module _ ⦃R : Redis⦄ (S : Server) (F : Surprise) (P : Codec) {X : Type 0} (cfg : Config X)
    (path_of : String → List String) (encode : Body → List ℕ) where
  -- `shipLogs` of one chunk: what it returns, and the control plane after it.
  abbrev pub ship : Agent → String → ℕ × List ℕ → World → Option String × World
  ship a id (seq, chunk) w =
      let (b, v) = serve S F (received path_of (log_request P cfg id seq chunk a)) w in
      (ship_logs P cfg seq (sent_back encode b), v)

  abbrev pub ship_all : Agent → String → List (ℕ × List ℕ) → World → List (Option String) × World
  ship_all a id [] w = ([], w)
  ship_all a id (c ∷ cs) w =
      let (e, v) = ship a id c w in let (es, z) = ship_all a id cs v in (e ∷ es, z)

  -- What `shipLogs` returns of a chunk.
  abbrev pub outcome : ℕ × List ℕ → Option String
  outcome (seq, chunk) =
      if is_large (seq, chunk)
      then some (
          P.status_text ("log chunk " <> (itoa seq <> " returned")) 413
            (encode (failure "log chunk too large")))
      else if is_text chunk
      then none
      else some (
          P.status_text ("log chunk " <> (itoa seq <> " returned")) 500
            (encode (failure "cannot append logs")))

  -- The runner and the server know each other, and the job is the runner's.
  pub record IsLinked (a : Agent) (id : String) (x : RunnerRow) (runners : List RunnerRow)
      : Type 0 where
    pub routed : path_of (cfg.server_url <> job_path id "/logs") ≡ logs_path id
    pub id_given : (id == "") ≡ false
    pub named : (a.id == "") ≡ false
    pub carried : (a.token == "") ≡ false
    pub known : find_row (runner_has_id a.id) runners ≡ some x
    pub matches : (x.token_hash == S.codec.sha256_hex a.token) ≡ true

  -- The errors of `shipLogs`, and the row that is left.
  abbrev pub IsShipped : String → List (ℕ × List ℕ) → JobRow → List (Option String) × World → Type 0
  IsShipped id chunks row (es, w) =
      (es ≡ map outcome chunks)
      × (u : JobRow) × (find_row (job_has_id id) w.store.jobs ≡ some u)
      × (u.logs ≡ row.logs ++ joined (kept chunks))
      × (u.job ≡ row.job)

  -- The request at the handler.
  abbrev at_handler : Agent → String → ℕ → List ℕ → Request
  at_handler a id seq chunk =
      record ((received path_of (log_request P cfg id seq chunk a)).request) { path_id = id }

  linked-IsTrusted :
      (a : Agent) (id : String) (x : RunnerRow) (runners : List RunnerRow) (seq : ℕ)
      (chunk : List ℕ)
      → IsLinked a id x runners
      → IsTrusted S.codec (at_handler a id seq chunk) x runners
  unfolding request
  linked-IsTrusted a id x runners seq chunk l =
      let bare = trim_prefix-append "Bearer " a.token in
      record {
        named = l.named;
        carried = rw bare l.carried;
        known = l.known;
        matches = rw bare l.matches;
      }

  serve-logs :
      (a : Agent) (id : String) (x : RunnerRow) (seq : ℕ) (chunk : List ℕ) (jobs : List JobRow)
      (runners : List RunnerRow) (now : ℕ) (d : R.Db) (b : Response) (v : World)
      → IsLinked a id x runners
      → handle_job_logs (at_handler a id seq chunk) (calm jobs runners now d) ≡ (ok b, v)
      → ship a id (seq, chunk) (calm jobs runners now d)
        ≡ (ship_logs P cfg seq (answer b.code (encode b.body)), v)
  unfolding serve serve_routed serve_endpoint request pure ◌>>=◌
  serve-logs a id x seq chunk jobs runners now d b v l handled =
      let trusted = linked-IsTrusted a id x runners seq chunk l in
      let passed =
        with_runner_auth-calm S.codec handle_job_logs (at_handler a id seq chunk) jobs runners now d
          x trusted in
      rw (l.routed, select-logs id l.id_given, passed ∙ handled) refl

  module _ (a : Agent) (id : String) (x : RunnerRow) (runners : List RunnerRow) (now : ℕ) (d : R.Db)
      (l : IsLinked a id x runners) where
    pub ship-stored :
        (n : ℕ) (chunk : List ℕ) (jobs : List JobRow) (row : JobRow)
        → find_row (job_has_id id) jobs ≡ some row
        → row.runner_id ≡ some a.id
        → row.log_seq ≤ n
        → suc n ≤ max_int
        → is_large (suc n, chunk) ≡ false
        → is_text chunk ≡ true
        → (ship a id (suc n, chunk) (calm jobs runners now d)
            ≡ (none, calm (appended id (suc n) chunk jobs) runners now d))
          × (find_row (job_has_id id) (appended id (suc n) chunk jobs)
              ≡ some (add_chunk (suc n) chunk row))
    unfolding ship_logs request
    ship-stored n chunk jobs row there held newer small short fine =
        let mine = find_row-passes (job_has_id id) jobs row there in
        let fresh : ltb row.log_seq (suc n) ≡ true = lt→ltb row.log_seq (suc n) (omega arith) in
        let numbered : leb (suc n) max_int ≡ true = ground arith in
        let in_range : takes_chunk (suc n) chunk ≡ true = rw numbered fine in
        let later : find_row (job_has_id id) (appended id (suc n) chunk jobs)
            ≡ some (add_chunk (suc n) chunk row) =
          find_row-update_rows (job_has_id id) (fits id (suc n)) (add_chunk (suc n) chunk) jobs
            (λ y. refl)
          ∙ rw (there, mine, fresh) refl in
        let handled =
          handle_job_logs-calm (at_handler a id (suc n) chunk) n jobs runners now d row _ there held
            (atoi-itoa (suc n) (omega arith)) in_range short later in
        (serve-logs a id x (suc n) chunk jobs runners now d _ _ l handled, later)

    pub ship_broken :
        (n : ℕ) (chunk : List ℕ) (jobs : List JobRow) (row : JobRow)
        → find_row (job_has_id id) jobs ≡ some row
        → row.runner_id ≡ some a.id
        → suc n ≤ max_int
        → is_large (suc n, chunk) ≡ false
        → is_text chunk ≡ false
        → ship a id (suc n, chunk) (calm jobs runners now d)
          ≡ (outcome (suc n, chunk), calm jobs runners now d)
    unfolding ship_logs request
    ship_broken n chunk jobs row there held small short broken =
        let numbered : leb (suc n) max_int ≡ true = ground arith in
        let refused : takes_chunk (suc n) chunk ≡ false = rw numbered broken in
        serve-logs a id x (suc n) chunk jobs runners now d _ _ l (
          handle_job_logs-broken (at_handler a id (suc n) chunk) n jobs runners now d row there held
            (atoi-itoa (suc n) (omega arith)) refused short)
        ∙ rw (short, broken) refl

    pub ship_large :
        (n : ℕ) (chunk : List ℕ) (jobs : List JobRow) (row : JobRow)
        → find_row (job_has_id id) jobs ≡ some row
        → row.runner_id ≡ some a.id
        → suc n ≤ max_int
        → is_large (suc n, chunk) ≡ true
        → ship a id (suc n, chunk) (calm jobs runners now d)
          ≡ (outcome (suc n, chunk), calm jobs runners now d)
    unfolding ship_logs request
    ship_large n chunk jobs row there held small long =
        serve-logs a id x (suc n) chunk jobs runners now d _ _ l (
          handle_job_logs-large (at_handler a id (suc n) chunk) n jobs runners now d row there held
            (atoi-itoa (suc n) (omega arith)) long)
        ∙ rw long refl
