-- ===== src/Api/Deliveries.antt =====
-- internal/api/webhook.go, handleWebhook, when PostgreSQL and Redis do every request.
use grid_runner.Prelude.{
  ℕ, ◌≡◌, refl, ◌∙◌, inl, inr, true, false, ◌||◌, String, List, [], ◌∷◌, ◌++◌, ltb, length,
  Bool-cases, ◌==◌, eq_refl,
}
use grid_runner.Fallible.{ok}
use grid_runner.Exec.{pure, raise, choose, choose_at, handle, from_option}
use grid_runner.Models.{Job}
use grid_runner.Github.{Event, verify_signature, parse_event}
use grid_runner.Store.{JobRow, RunnerRow, statement, answer}
use grid_runner.Store.Creation.{violates, clashes, new_row, insert_job, create_job}
use grid_runner.Queue.{Redis, pending_key, enqueue, command, reply}
use grid_runner.World.{World, in_store, in_broker, from_result}
use grid_runner.World.Calm.{calm}
use grid_runner.Api.{Codec, Request, write, status, created}
use grid_runner.Api.Webhook.{job_of_event, queue_job, handle_webhook}

violates-append :
    (j : Job) (r : JobRow) (rs : List JobRow)
    → clashes r.job j ≡ true
    → violates j (rs ++ r ∷ []) ≡ true
unfolding violates
violates-append j r [] h = elim (Bool-cases (r.id == j.id)) [
  | inl e ↦ rw e refl
  | inr e ↦ rw (e, h) refl
]
violates-append j r (x ∷ xs) h = elim (Bool-cases (x.id == j.id || clashes x.job j)) [
  | inl e ↦ rw e refl
  | inr e ↦ rw e (violates-append j r xs h)
]

-- The new row stands in the way of another job for the same event.
clashes-event :
    (now : ℕ) (id other : String) (e : Event)
    → clashes (new_row now (job_of_event id e)).job (job_of_event other e) ≡ true
clashes-event now id other e =
    rw (eq_refl e.repository, eq_refl e.commit_sha, eq_refl e.event_type) refl

module _ ⦃R : Redis⦄ where
  -- The request is one that the handler acts on.
  pub record IsGenuine (C : Codec) (secret : String) (r : Request) (e : Event) : Type 0 where
    pub fits : ltb 1048576 (length r.body) ≡ false
    pub signed : verify_signature C.crypto secret r.body r.signature ≡ ok tt
    pub parsed : parse_event C.crypto r.event r.body ≡ ok e

  pub handle_webhook-genuine :
      (C : Codec) (secret id : String) (r : Request) (e : Event) (w : World)
      → IsGenuine C secret r e
      → handle_webhook C secret id r w ≡ queue_job (job_of_event id e) w
  unfolding handle_webhook from_option from_result handle
  handle_webhook-genuine C secret id r e w h = rw (h.fits, h.signed, h.parsed) refl

  abbrev pub after_webhook : String → Event → List JobRow → List RunnerRow → ℕ → R.Db → World
  after_webhook id e jobs runners now d =
      calm (jobs ++ new_row now (job_of_event id e) ∷ []) runners now (R.lpush pending_key id d)

  pub queue_job-calm :
      (id : String) (e : Event) (jobs : List JobRow) (runners : List RunnerRow) (now : ℕ) (d : R.Db)
      → violates (job_of_event id e) jobs ≡ false
      → queue_job (job_of_event id e) (calm jobs runners now d)
        ≡ (ok (write 202 (created id)), after_webhook id e jobs runners now d)
  unfolding queue_job handle in_store in_broker create_job insert_job statement answer choose_at
      pure enqueue command reply
  queue_job-calm id e jobs runners now d new = rw new refl

  pub queue_job-duplicate :
      (id : String) (e : Event) (jobs : List JobRow) (runners : List RunnerRow) (now : ℕ) (d : R.Db)
      → violates (job_of_event id e) jobs ≡ true
      → queue_job (job_of_event id e) (calm jobs runners now d)
        ≡ (ok (write 200 (status "duplicate")), calm jobs runners now d)
  unfolding queue_job handle in_store create_job insert_job statement answer choose choose_at raise
      pure
  queue_job-duplicate id e jobs runners now d old = rw old refl

  -- A signed delivery of an event, when PostgreSQL and Redis do every request and no unfinished job
  -- stands for its repository, commit and kind: the first answer is 202, one QUEUED row is added, and
  -- its id is the newest of the queue. The same delivery again is answered as a duplicate and
  -- changes nothing, whatever id it draws.
  pub webhook_queues_once :
      (C : Codec) (secret id other : String) (r : Request) (e : Event) (jobs : List JobRow)
      (runners : List RunnerRow) (now : ℕ) (d : R.Db)
      → IsGenuine C secret r e
      → violates (job_of_event id e) jobs ≡ false
      → (handle_webhook C secret id r (calm jobs runners now d)
          ≡ (ok (write 202 (created id)), after_webhook id e jobs runners now d))
        × (handle_webhook C secret other r (after_webhook id e jobs runners now d)
            ≡ (ok (write 200 (status "duplicate")), after_webhook id e jobs runners now d))
  webhook_queues_once C secret id other r e jobs runners now d genuine new =
      let clash =
        violates-append (job_of_event other e) (new_row now (job_of_event id e)) jobs
          (clashes-event now id other e) in
      (
        handle_webhook-genuine C secret id r e _ genuine
            ∙ queue_job-calm id e jobs runners now d new,
        handle_webhook-genuine C secret other r e _ genuine
            ∙ queue_job-duplicate other e _ runners now _ clash,
      )
