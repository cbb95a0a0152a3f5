-- ===== src/System/Shipped.antt =====
-- The output of a build, from internal/runner to the table: every chunk of a log streamer.
use mathlib.Core.Path.{subst}
use mathlib.Core.List.{append-nil, append_assoc}
use grid_runner.Prelude.{
  ℕ, suc, ◌≤◌, ◌≡◌, refl, sym, ap, ◌∙◌, String, false, Option, none, some, List, [], ◌∷◌, ◌++◌,
  arith, map, ltb, length, Bool-cases, inl, inr,
}
use grid_runner.Config.{Config}
use grid_runner.Store.{JobRow, RunnerRow}
use grid_runner.Store.Rows.{find_row}
use grid_runner.Store.Statements.{job_has_id}
use grid_runner.Store.Columns.{max_int, is_text}
use grid_runner.Store.LogAppends.{appended, add_chunk}
use grid_runner.Queue.{Redis}
use grid_runner.World.{World}
use grid_runner.World.Calm.{calm}
use grid_runner.Api.{Body}
use grid_runner.LogStream.{new_log_streamer, Call, closes, run}
use grid_runner.LogStream.Delivery.{
  joined, written, IsNumbered, has_close, closed_streamer_sent_all,
}
use grid_runner.Runner.Protocol.{Codec, Agent}
use grid_runner.Server.{Surprise, Server}
use grid_runner.System.Shipping.{
  kept, ship, ship_all, outcome, IsLinked, IsShipped, ship-stored, ship_large, ship_broken,
}

IsNumbered-le : (n : ℕ) (chunks : List (ℕ × List ℕ)) (m : ℕ) → IsNumbered n chunks m → n ≤ m
IsNumbered-le n [] m h = omega (arith, h)
IsNumbered-le n ((seq, chunk) ∷ rest) m (e, h) =
    let le = IsNumbered-le seq rest m h in omega (arith, e)

module _ ⦃R : Redis⦄ (S : Server) (F : Surprise) (P : Codec) {X : Type 0} (cfg : Config X)
    (path_of : String → List String) (encode : Body → List ℕ) where
  module _ (a : Agent) (id : String) (x : RunnerRow) (runners : List RunnerRow) (now : ℕ) (d : R.Db)
      (l : IsLinked S F P cfg path_of encode a id x runners) where
    after_ship :
        (c : ℕ × List ℕ) (rest : List (ℕ × List ℕ)) (w v : World) (e : Option String)
        → ship S F P cfg path_of encode a id c w ≡ (e, v)
        → ship_all S F P cfg path_of encode a id (c ∷ rest) w ≡ (
          e ∷ (ship_all S F P cfg path_of encode a id rest v).0,
          (ship_all S F P cfg path_of encode a id rest v).1,
        )
    after_ship c rest w v e h =
        ap
          (λ p. (
            p.0 ∷ (ship_all S F P cfg path_of encode a id rest p.1).0,
            (ship_all S F P cfg path_of encode a id rest p.1).1,
          ))
          h

    ship_all-IsShipped :
        (chunks : List (ℕ × List ℕ)) (n m : ℕ) (jobs : List JobRow) (row : JobRow)
        → find_row (job_has_id id) jobs ≡ some row
        → row.runner_id ≡ some a.id
        → row.log_seq ≤ n
        → m ≤ max_int
        → IsNumbered n chunks m
        → IsShipped S F P cfg path_of encode id chunks row
            (ship_all S F P cfg path_of encode a id chunks (calm jobs runners now d))
    ship_all-IsShipped [] n m jobs row there held newer small h =
        (refl, row, there, sym (append-nil row.logs), refl)
    ship_all-IsShipped ((seq, chunk) ∷ rest) n m jobs row there held newer small (e, h) =
        let after = subst (λ k. IsNumbered k rest m) e h in
        let bound = IsNumbered-le (suc n) rest m after in
        let c : ℕ × List ℕ = (suc n, chunk) in
        subst
          (λ k.
            IsShipped S F P cfg path_of encode id ((k, chunk) ∷ rest) row (
              ship_all S F P cfg path_of encode a id ((k, chunk) ∷ rest) (calm jobs runners now d)))
          (sym e)
          (elim (Bool-cases (ltb 1048576 (length chunk))) [
            | inl long ↦
                let (errors, u, found_u, logs, job) =
                  ship_all-IsShipped rest (suc n) m jobs row there held (omega arith) small after in
                let went =
                  ship_large S F P cfg path_of encode a id x runners now d l n chunk jobs row there
                    held (omega arith) long in
                subst (IsShipped S F P cfg path_of encode id (c ∷ rest) row)
                  (sym (after_ship c rest _ _ _ went))
                  (
                    ap (λ es. outcome S F P cfg path_of encode c ∷ es) errors,
                    u,
                    found_u,
                    rw long logs,
                    job,
                  )
            | inr short ↦ elim (Bool-cases (is_text chunk)) [
              | inr broken ↦
                  let (errors, u, found_u, logs, job) =
                    ship_all-IsShipped rest (suc n) m jobs row there held (omega arith) small
                      after in
                  let went =
                    ship_broken S F P cfg path_of encode a id x runners now d l n chunk jobs row
                      there held (omega arith) short broken in
                  subst (IsShipped S F P cfg path_of encode id (c ∷ rest) row)
                    (sym (after_ship c rest _ _ _ went))
                    (
                      ap (λ es. outcome S F P cfg path_of encode c ∷ es) errors,
                      u,
                      found_u,
                      rw (short, broken) logs,
                      job,
                    )
              | inl fine ↦
                  let (went, later) =
                    ship-stored S F P cfg path_of encode a id x runners now d l n chunk jobs row
                      there held newer (omega arith) short fine in
                  let (errors, u, found_u, logs, job) =
                    ship_all-IsShipped rest (suc n) m (appended id (suc n) chunk jobs)
                      (add_chunk (suc n) chunk row) later held (omega arith) small after in
                  let accepted : none ≡ outcome S F P cfg path_of encode c =
                    rw (short, fine) refl in
                  subst (IsShipped S F P cfg path_of encode id (c ∷ rest) row)
                    (sym (after_ship c rest _ _ _ went))
                    (
                      ap (λ es. none ∷ es) errors
                          ∙ ap (λ o. o ∷ map (outcome S F P cfg path_of encode) rest) accepted,
                      u,
                      found_u,
                      rw (short, fine) (logs ∙ append_assoc row.logs chunk (joined (kept rest))),
                      job,
                    )
            ]
          ])

    -- The output of a build, from the runner to the table, when PostgreSQL answers every request, the
    -- runner presents its own id and token, the server sees the path of the URL, and the job is the
    -- runner's and has no chunk of log yet: the chunks of a closed log streamer hold exactly what the
    -- build wrote; when they are posted in order, with the checks of the server in front, the log
    -- grows by the chunks of at most 1 MiB that are text, UTF-8 without a zero byte, in order; of a
    -- larger chunk `shipLogs` returns the error that the server answered 413, of another that is no
    -- text the error that it answered 500, and nothing of either is stored; and no field of the job but
    -- the log and its number changes. The chunks are at most as many as a column INT can number.
    pub log_reaches_table :
        (jobs : List JobRow) (row : JobRow) (cs : List Call)
        → find_row (job_has_id id) jobs ≡ some row
        → row.runner_id ≡ some a.id
        → row.log_seq ≡ 0
        → has_close cs ≡ false
        → (run new_log_streamer (cs ++ closes ∷ [])).seq ≤ max_int
        → let s = run new_log_streamer (cs ++ closes ∷ []) in
          (joined s.sent ≡ written cs)
          × IsShipped S F P cfg path_of encode id s.sent row
              (ship_all S F P cfg path_of encode a id s.sent (calm jobs runners now d))
    log_reaches_table jobs row cs there held fresh no_close small =
        let s = run new_log_streamer (cs ++ closes ∷ []) in
        let (all, numbered) = closed_streamer_sent_all cs no_close in
        (
          all,
          ship_all-IsShipped s.sent 0 s.seq jobs row there held (omega (arith, fresh)) small
              numbered,
        )
