-- ===== src/Api/Access.antt =====
-- Who may do what: the checks of internal/api/middleware.go in front of the handlers.
use grid_runner.Prelude.{
  ◌≡◌, refl, ◌⊎◌, String, false, ◌||◌, some, List, [], ◌∷◌, ◌==◌, Option-cases, Bool-cases, inl,
  inr,
}
use grid_runner.Fallible.{Result, ok, err, unavailable}
use grid_runner.Exec.{Exec, pure, choose, handle, ◌>>=◌}
use grid_runner.Store.{JobRow, RunnerRow, Store, Outcome, done, refused, lost, statement, answer}
use grid_runner.Store.Rows.{find_row}
use grid_runner.Store.Statements.{job_has_id, runner_has_id, get_job, scan_job}
use grid_runner.Store.Runners.{runner_token_hash, scan_hash}
use grid_runner.Queue.{Redis}
use grid_runner.World.{World, in_store}
use grid_runner.World.Calm.{IsUntouched}
use grid_runner.Github.{trim_prefix}
use grid_runner.Api.{
  Codec, Request, Response, Handler, write, failure, owned_by, presented_id, with_runner_auth,
  runner_owns_job,
}
use grid_runner.Api.Jobs.{not_owner, handle_job_start, handle_job_logs, handle_job_result}

module _ ⦃R : Redis⦄ where
  -- A query that changes nothing: the row that the table has, or no answer.
  abbrev pub IsQuery : {A : Type 0} → Exec World A → Result A → World → Type 0
  IsQuery m found w =
      (v : World) × ((m w ≡ (found, v)) ⊎ (m w ≡ (err unavailable, v))) × IsUntouched w v

  abbrev lifted : {A : Type 0} → World → Result A × Store → Result A × World
  lifted w (r, s) = (r, record w { store = s })

  select-IsQuery :
      {A : Type 0} (os : List Outcome) (w : World) (f : Store → Result A)
      → ((os' : List Outcome) → f (record w.store { outcomes = os' }) ≡ f w.store)
      → (v : World) × ((lifted w (answer os (λ s. (f s, s)) w.store) ≡ (f w.store, v))
          ⊎ (lifted w (answer os (λ s. (f s, s)) w.store) ≡ (err unavailable, v)))
        × IsUntouched w v
  unfolding answer
  select-IsQuery [] w f h = (w, inl refl, record { jobs = refl; runners = refl; db = refl })
  select-IsQuery (done ∷ rest) w f h = (
    record w { store = record w.store { outcomes = rest } },
    inl (rw (h rest) refl),
    record { jobs = refl; runners = refl; db = refl },
  )
  select-IsQuery (refused ∷ rest) w f h =
      (_, inr refl, record { jobs = refl; runners = refl; db = refl })
  select-IsQuery (lost ∷ rest) w f h =
      (_, inr refl, record { jobs = refl; runners = refl; db = refl })

  pub get_job-IsQuery :
      (id : String) (w : World)
      → IsQuery (in_store (get_job id)) (scan_job (find_row (job_has_id id) w.store.jobs)) w
  unfolding in_store get_job statement
  get_job-IsQuery id w =
      select-IsQuery w.store.outcomes w (λ s. scan_job (find_row (job_has_id id) s.jobs))
        (λ _. refl)

  token_hash-IsQuery :
      (id : String) (w : World)
      → IsQuery
          (in_store (runner_token_hash id))
          (scan_hash (find_row (runner_has_id id) w.store.runners))
          w
  unfolding in_store runner_token_hash statement
  token_hash-IsQuery id w =
      select-IsQuery w.store.outcomes w (λ s. scan_hash (find_row (runner_has_id id) s.runners))
        (λ _. refl)

  -- The runner that presents itself does not hold the job, or there is no such job.
  abbrev pub IsForeign : Request → World → Type 0
  IsForeign r w =
      (j : JobRow)
      → find_row (job_has_id r.path_id) w.store.jobs ≡ some j
      → owned_by j.runner_id r.runner_id ≡ false

  -- The answer `a`, and nothing changed.
  abbrev pub Turned : {A : Type 0} → A → Result A × World → World → Type 0
  Turned a (r, v) w = (r ≡ ok a) × IsUntouched w v

  runner_owns_job-foreign :
      (r : Request) (w : World)
      → IsForeign r w
      → (v : World) × (runner_owns_job r r.path_id w ≡ (ok false, v)) × IsUntouched w v
  unfolding runner_owns_job handle pure
  runner_owns_job-foreign r w foreign =
      let (v, cases, same) = get_job-IsQuery r.path_id w in
      elim cases [
        | inl e ↦ elim (Option-cases (find_row (job_has_id r.path_id) w.store.jobs)) [
          | inl gone ↦ (v, rw (e, gone) refl, same)
          | inr (j, found) ↦ (v, rw (e, found, foreign j found) refl, same)
        ]
        | inr e ↦ (v, rw e refl, same)
      ]

  pub handle_job_start-foreign :
      (r : Request) (w : World) → IsForeign r w → Turned not_owner (handle_job_start r w) w
  unfolding handle_job_start ◌>>=◌ choose pure
  handle_job_start-foreign r w foreign =
      let (v, e, same) = runner_owns_job-foreign r w foreign in rw e (refl, same)

  pub handle_job_logs-foreign :
      (r : Request) (w : World) → IsForeign r w → Turned not_owner (handle_job_logs r w) w
  unfolding handle_job_logs ◌>>=◌ choose pure
  handle_job_logs-foreign r w foreign =
      let (v, e, same) = runner_owns_job-foreign r w foreign in rw e (refl, same)

  pub handle_job_result-foreign :
      (C : Codec) (r : Request) (w : World)
      → IsForeign r w
      → Turned not_owner (handle_job_result C r w) w
  unfolding handle_job_result ◌>>=◌ choose pure
  handle_job_result-foreign C r w foreign =
      let (v, e, same) = runner_owns_job-foreign r w foreign in rw e (refl, same)

  -- A runner that does not hold the job of the URL, or names a job that is not there, is refused
  -- with 403 by the start, logs and result routes, and no table and no queue changes, however the
  -- database answers.
  pub foreign_runner_refused :
      (C : Codec) (r : Request) (w : World)
      → IsForeign r w
      → Turned not_owner (handle_job_start r w) w
        × Turned not_owner (handle_job_logs r w) w
        × Turned not_owner (handle_job_result C r w) w
  foreign_runner_refused C r w foreign = (
    handle_job_start-foreign r w foreign,
    handle_job_logs-foreign r w foreign,
    handle_job_result-foreign C r w foreign,
  )

  -- The bearer token of the request is not the one that the presented runner registered with.
  abbrev pub IsForged : Codec → Request → World → Type 0
  IsForged C r w =
      (x : RunnerRow)
      → find_row (runner_has_id (presented_id r)) w.store.runners ≡ some x
      → (x.token_hash == C.sha256_hex (trim_prefix r.authorization "Bearer ")) ≡ false

  abbrev pub Rejected : Result Response × World → World → Type 0
  Rejected (r, v) w = ((text : String) × (r ≡ ok (write 401 (failure text)))) × IsUntouched w v

  reject : (text : String) (w : World) → Rejected (ok (write 401 (failure text)), w) w
  reject text w = ((text, refl), record { jobs = refl; runners = refl; db = refl })

  -- A request whose presented runner is not registered, or registered with another token, gets 401
  -- and changes nothing, however the database answers and whatever handler stands behind.
  pub with_runner_auth-forged :
      (C : Codec) (next : Handler) (r : Request) (w : World)
      → IsForged C r w
      → Rejected (with_runner_auth C next r w) w
  unfolding with_runner_auth handle choose pure
  with_runner_auth-forged C next r w forged =
      elim (Bool-cases (presented_id r == "" || trim_prefix r.authorization "Bearer " == "")) [
        | inl e ↦ rw e (reject _ w)
        | inr e ↦
            let (v, cases, same) = token_hash-IsQuery (presented_id r) w in
            elim cases [
              | inl q ↦
                  elim (Option-cases (find_row (runner_has_id (presented_id r)) w.store.runners)) [
                    | inl gone ↦ rw (e, q, gone) ((_, refl), same)
                    | inr (x, found) ↦ rw (e, q, found, forged x found) ((_, refl), same)
                  ]
              | inr q ↦ rw (e, q) ((_, refl), same)
            ]
      ]
