-- ===== src/Api/Chunks.antt =====
-- internal/api: withRunnerAuth and handleJobLogs, when PostgreSQL answers every request.
use Prim.Native.String.{◌++◌ as ◌<>◌, len, slice}
use text.Mathlib.TextPositions.{slice-append_right, starts_with-append, len-append}
use grid_runner.Prelude.{
  ℕ, suc, ◌≡◌, refl, ap, ◌∙◌, String, pos, true, false, some, List, ltb, length, ◌==◌, eq_refl,
}
use grid_runner.Fallible.{ok}
use grid_runner.Exec.{pure, choose, handle, from_option, ◌>>=◌}
use grid_runner.Store.{JobRow, RunnerRow, statement, answer}
use grid_runner.Store.Rows.{find_row}
use grid_runner.Store.Statements.{job_has_id, runner_has_id}
use grid_runner.Store.Runners.{runner_token_hash}
use grid_runner.Store.Columns.{takes_chunk}
use grid_runner.Store.LogAppends.{quiet_store, appended, append_logs-appended, append_logs-refused}
use grid_runner.Store.Candidates.{get_job-calm}
use grid_runner.Queue.{Redis}
use grid_runner.World.{in_store}
use grid_runner.World.Calm.{calm}
use grid_runner.Github.{trim_prefix}
use grid_runner.Api.{
  Codec, Request, Handler, write, nothing, failure, owned_by, with_runner_auth, runner_owns_job,
}
use grid_runner.Api.Jobs.{atoi, handle_job_logs}

-- `TrimPrefix` takes away what was put in front.
pub trim_prefix-append : (p s : String) → trim_prefix (p <> s) p ≡ s
unfolding trim_prefix
trim_prefix-append p s =
    rw (starts_with-append p s)
      (ap (slice (p <> s) (len p)) (len-append p s) ∙ slice-append_right p s)

module _ ⦃R : Redis⦄ where
  -- The request has the id and the token of a runner.
  pub record IsTrusted (C : Codec) (r : Request) (x : RunnerRow) (runners : List RunnerRow)
      : Type 0 where
    pub named : (r.runner_id == "") ≡ false
    pub carried : (trim_prefix r.authorization "Bearer " == "") ≡ false
    pub known : find_row (runner_has_id r.runner_id) runners ≡ some x
    pub matches : (x.token_hash == C.sha256_hex (trim_prefix r.authorization "Bearer ")) ≡ true

  pub with_runner_auth-calm :
      (C : Codec) (h : Handler) (r : Request) (jobs : List JobRow) (runners : List RunnerRow)
      (now : ℕ) (d : R.Db) (x : RunnerRow)
      → IsTrusted C r x runners
      → with_runner_auth C h r (calm jobs runners now d) ≡ h r (calm jobs runners now d)
  unfolding with_runner_auth handle choose in_store runner_token_hash statement answer
  with_runner_auth-calm C h r jobs runners now d x t =
      rw (t.named, t.named, t.carried, t.known, t.matches) refl

  pub handle_job_logs-calm :
      (r : Request) (seq : ℕ) (jobs : List JobRow) (runners : List RunnerRow) (now : ℕ) (d : R.Db)
      (row u : JobRow)
      → find_row (job_has_id r.path_id) jobs ≡ some row
      → row.runner_id ≡ some r.runner_id
      → atoi r.log_seq ≡ some (pos (suc seq))
      → takes_chunk (suc seq) r.body ≡ true
      → ltb 1048576 (length r.body) ≡ false
      → find_row (job_has_id r.path_id) (appended r.path_id (suc seq) r.body jobs) ≡ some u
      → handle_job_logs r (calm jobs runners now d)
        ≡ (ok (write 202 nothing), calm (appended r.path_id (suc seq) r.body jobs) runners now d)
  unfolding handle_job_logs runner_owns_job handle in_store choose from_option pure ◌>>=◌
  handle_job_logs-calm r seq jobs runners now d row u found held numbered small short later =
      let owns : owned_by row.runner_id r.runner_id ≡ true = rw held (eq_refl r.runner_id) in
      rw
        (
          get_job-calm r.path_id jobs runners now row found,
          owns,
          numbered,
          short,
          append_logs-appended r.path_id (suc seq) r.body jobs runners now u small later,
        )
        refl

  pub handle_job_logs-broken :
      (r : Request) (seq : ℕ) (jobs : List JobRow) (runners : List RunnerRow) (now : ℕ) (d : R.Db)
      (row : JobRow)
      → find_row (job_has_id r.path_id) jobs ≡ some row
      → row.runner_id ≡ some r.runner_id
      → atoi r.log_seq ≡ some (pos (suc seq))
      → takes_chunk (suc seq) r.body ≡ false
      → ltb 1048576 (length r.body) ≡ false
      → handle_job_logs r (calm jobs runners now d)
        ≡ (ok (write 500 (failure "cannot append logs")), calm jobs runners now d)
  unfolding handle_job_logs runner_owns_job handle in_store choose from_option pure ◌>>=◌
  handle_job_logs-broken r seq jobs runners now d row found held numbered broken short =
      let owns : owned_by row.runner_id r.runner_id ≡ true = rw held (eq_refl r.runner_id) in
      rw
        (
          get_job-calm r.path_id jobs runners now row found,
          owns,
          numbered,
          short,
          append_logs-refused r.path_id (suc seq) r.body (quiet_store jobs runners now) broken,
        )
        refl

  pub handle_job_logs-large :
      (r : Request) (seq : ℕ) (jobs : List JobRow) (runners : List RunnerRow) (now : ℕ) (d : R.Db)
      (row : JobRow)
      → find_row (job_has_id r.path_id) jobs ≡ some row
      → row.runner_id ≡ some r.runner_id
      → atoi r.log_seq ≡ some (pos (suc seq))
      → ltb 1048576 (length r.body) ≡ true
      → handle_job_logs r (calm jobs runners now d)
        ≡ (ok (write 413 (failure "log chunk too large")), calm jobs runners now d)
  unfolding handle_job_logs runner_owns_job handle in_store choose from_option pure ◌>>=◌
  handle_job_logs-large r seq jobs runners now d row found held numbered long =
      let owns : owned_by row.runner_id r.runner_id ≡ true = rw held (eq_refl r.runner_id) in
      rw (get_job-calm r.path_id jobs runners now row found, owns, numbered, long) refl
