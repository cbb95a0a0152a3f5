-- ===== src/Api/Jobs.antt =====
-- internal/api/jobs.go. Reports to GitHub run in goroutines of their own and change no state; the
-- read that comes before one stays.
use grid_runner.Prelude.{
  ℕ, zero, suc, ◌+◌, ◌-◌, ◌*◌, String, ℤ, pos, negsuc, Bool, not, ◌&&◌, Option, none, some, List,
  [], ◌∷◌, leb, if◌then◌else◌,
}
use grid_runner.Fallible.{Err}
use grid_runner.Exec.{Exec, pure, choose, handle, from_option, ◌>>=◌, ◌>>◌}
use grid_runner.Models.{JobStatus, success, failed, parse_job_status}
use grid_runner.Github.{codes}
use grid_runner.Store.Statements.{get_job}
use grid_runner.Store.Creation.{list_jobs}
use grid_runner.Store.Jobs.{start_job, complete_job, cancel_job, append_logs, get_logs}
use grid_runner.Queue.{Redis}
use grid_runner.World.{World, in_store, ignore}
use grid_runner.Api.{
  Codec, Request, ResultRequest, Response, Handler, write, nothing, failure, reason, status, job,
  jobs, logs, is_not_found, is_invalid_transition, read_all, runner_owns_job,
}

-- `strconv.Atoi` to an int64: an optional sign, digits only, at least one, and in range.
abbrev pub atoi_digits : List ℕ → ℕ → Option ℕ
atoi_digits [] n = some n
atoi_digits (c ∷ cs) n =
    let rest = atoi_digits cs (n * 10 + (c - 48)) in if leb b'0' c && leb c b'9' then rest else none

abbrev pub at_least_one : List ℕ → Option ℕ
at_least_one [] = none
at_least_one (c ∷ cs) = atoi_digits (c ∷ cs) 0

abbrev pub positive : Option ℕ → Option ℤ
positive none = none
positive (some n) = if leb n 9223372036854775807 then some (pos n) else none

abbrev pub negate : ℕ → ℤ
negate zero = pos 0
negate (suc n) = negsuc n

abbrev pub negative : Option ℕ → Option ℤ
negative none = none
negative (some n) = if leb n 9223372036854775808 then some (negate n) else none

abbrev pub atoi_signed : List ℕ → Option ℤ
atoi_signed [] = none
atoi_signed (c ∷ cs) =
    if c_is b'-'
    then negative (at_least_one cs)
    else if c_is b'+'
    then positive (at_least_one cs)
    else positive (at_least_one (c ∷ cs))
  where
    c_is : ℕ → Bool
    c_is d = leb c d && leb d c

abbrev pub atoi : String → Option ℤ
atoi s = atoi_signed (codes s)

-- `err != nil || seq <= 0` the other way round.
abbrev pub positive_seq : Option ℤ → Option ℕ
positive_seq (some (pos (suc n))) = some (suc n)
positive_seq _ = none

abbrev pub limit_of : Option ℤ → ℕ
limit_of (some (pos (suc n))) = if leb (suc n) 500 then suc n else 50
limit_of _ = 50

-- The status of a result, if it is one that a runner may report.
abbrev pub reported : Option JobStatus → Option JobStatus
reported (some success) = some success
reported (some failed) = some failed
reported _ = none

abbrev pub status_text : JobStatus → String
status_text success = "SUCCESS"
status_text _ = "FAILED"

abbrev pub cancel_failure : Err → Response
cancel_failure e =
    if is_not_found e
    then write 404 (failure "job not found")
    else if is_invalid_transition e
    then write 409 (reason e)
    else write 500 (failure "cancel failed")

module _ ⦃R : Redis⦄ where
  unfoldable pub handle_list_jobs : Handler
  handle_list_jobs r =
      handle (in_store (list_jobs (limit_of (atoi r.limit)))) (λ js. pure (write 200 (jobs js)))
        (λ _. pure (write 500 (failure "cannot list jobs")))

  unfoldable pub handle_get_job : Handler
  handle_get_job r =
      handle (in_store (get_job r.path_id)) (λ j. pure (write 200 (job j)))
        (λ e. pure (
          if is_not_found e
          then write 404 (failure "job not found")
          else write 500 (failure "cannot load job")))

  unfoldable pub handle_get_job_logs : Handler
  handle_get_job_logs r =
      handle (in_store (get_logs r.path_id)) (λ text. pure (write 200 (logs text)))
        (λ e. pure (
          if is_not_found e
          then write 404 (failure "job not found")
          else write 500 (failure "cannot load logs")))

  unfoldable pub handle_cancel_job : Handler
  handle_cancel_job r =
      handle (in_store (cancel_job r.path_id)) (λ _. pure (write 200 (status "CANCELLED")))
        (λ e. pure (cancel_failure e))

  abbrev pub not_owner : Response
  not_owner = write 403 (failure "job is not assigned to this runner")

  unfoldable pub handle_job_start : Handler
  handle_job_start r = do
    owns ← runner_owns_job r r.path_id
    choose (not owns) (pure not_owner) (
        handle (in_store (start_job r.path_id))
          (λ _. ignore (in_store (get_job r.path_id)) >> pure (write 200 (status "RUNNING")))
          (λ e. pure (
            if is_invalid_transition e
            then write 409 (reason e)
            else write 500 (failure "cannot start job"))))

  unfoldable pub handle_job_logs : Handler
  handle_job_logs r = do
    owns ← runner_owns_job r r.path_id
    choose (not owns) (pure not_owner) (
        from_option (positive_seq (atoi r.log_seq))
          (pure (write 400 (failure "X-Log-Seq must be a positive integer")))
          (λ seq.
            from_option (read_all 1048576 r.body) (pure (write 413 (failure "log chunk too large")))
              (λ chunk.
                handle (in_store (append_logs r.path_id seq chunk)) (λ _. pure (write 202 nothing))
                  (λ _. pure (write 500 (failure "cannot append logs"))))))

  unfoldable pub finish_job : Request → ResultRequest → JobStatus → Exec World Response
  finish_job r req to =
      handle (in_store (complete_job r.path_id to req.exit_code req.error))
        (λ _. ignore (in_store (get_job r.path_id)) >> pure (write 200 (status (status_text to))))
        (λ e. pure (
          if is_invalid_transition e
          then write 409 (reason e)
          else write 500 (failure "cannot complete job")))

  unfoldable pub handle_job_result : Codec → Handler
  handle_job_result C r = do
    owns ← runner_owns_job r r.path_id
    choose (not owns) (pure not_owner) (
        from_option (C.decode_result 65536 r.body) (pure (write 400 (failure "invalid JSON body")))
          (λ req.
            from_option (reported (parse_job_status req.status))
              (pure (write 400 (failure "status must be SUCCESS or FAILED"))) (finish_job r req)))
