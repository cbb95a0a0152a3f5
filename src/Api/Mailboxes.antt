-- ===== src/Api/Mailboxes.antt =====
-- Whose mailbox `handlePollJob` reads behind `withRunnerAuth`.
use grid_runner.Prelude.{
  ℕ, ◌≡◌, refl, ◌∙◌, String, Bool, true, false, some, List, [], ◌∷◌, ◌++◌, ◌==◌, eq_refl,
}
use grid_runner.Fallible.{Result, ok}
use grid_runner.Exec.{pure, choose, handle}
use grid_runner.Store.{JobRow, RunnerRow, statement, answer}
use grid_runner.Store.Rows.{find_row}
use grid_runner.Store.Statements.{job_has_id, runner_has_id, get_job}
use grid_runner.Store.Runners.{runner_token_hash}
use grid_runner.Queue.{Redis, receive, command, reply, runner_key}
use grid_runner.World.{in_store, in_broker}
use grid_runner.World.Calm.{calm}
use grid_runner.Github.{trim_prefix}
use grid_runner.Api.{Codec, Request, write, delivery, with_runner_auth}
use grid_runner.Api.Runners.{handle_poll_job, token_or_empty}

module _ ⦃R : Redis⦄ where
  -- The runner that is authenticated is the one of the X-Runner-ID header, and the mailbox that is
  -- read is the one of the URL. With every request answered, a runner that sends its own id and
  -- token takes the last job of any mailbox, whatever runner that mailbox belongs to, and gets the
  -- job and its clone token.
  pub poll_takes_any_mailbox :
      (C : Codec) (clone_token : String → Result String) (gone : Bool) (r : Request)
      (jobs : List JobRow) (runners : List RunnerRow) (now : ℕ) (db : R.Db) (x : RunnerRow)
      (j : JobRow) (ids : List String) (id : String)
      → (r.runner_id == "") ≡ false
      → (trim_prefix r.authorization "Bearer " == "") ≡ false
      → find_row (runner_has_id r.runner_id) runners ≡ some x
      → (x.token_hash == C.sha256_hex (trim_prefix r.authorization "Bearer ")) ≡ true
      → R.list db (runner_key r.path_id) ≡ ids ++ id ∷ []
      → find_row (job_has_id id) jobs ≡ some j
      → (d : R.Db) × (with_runner_auth C
            (handle_poll_job clone_token gone)
            r
            (calm jobs runners now db)
          ≡ (
            ok (write 200 (delivery j.job (token_or_empty (clone_token j.repository)))),
            calm jobs runners now d,
          ))
        × (R.list d (runner_key r.path_id) ≡ ids)
  unfolding with_runner_auth handle_poll_job handle choose pure in_store in_broker runner_token_hash
      get_job statement answer receive command reply
  poll_takes_any_mailbox C clone_token gone r jobs runners now db x j ids id header token mine hash
        mail found =
      let (d, took, lists) = R.brpop_last (runner_key r.path_id) db ids id mail in
      (
        d,
        rw (header, header, token, mine, hash, took, found) refl,
        lists (runner_key r.path_id) ∙ simp eq_refl,
      )
