-- ===== src/Runner/Agent.antt =====
-- internal/runner/agent.go, execute: one delivered job, from its start to the report of its result.
pub mod Traces
pub mod Outcomes
pub mod Builds
pub mod Reports
use Prim.Native.String.{◌++◌ as ◌<>◌, len, slice}
use grid_runner.Prelude.{
  ℕ, zero, suc, ◌≡◌, String, Bool, true, false, Option, none, some, List, [], ◌∷◌, ltb, ◌==◌, ℤ,
  pos, negsuc, if◌then◌else◌,
}
use grid_runner.Fallible.{Err, Result, ok, err}
use grid_runner.Models.{Job, JobStatus, success, failed}
use grid_runner.JobSpec.{Spec, SpecJob, parse, primary}
use grid_runner.Config.{Config}
use grid_runner.Runner.{
  Outcome, gives, fails, Action, removed_dir, read_file, said, closed_stream, set_active,
  cleared_active, asked_start, reported, Trace, Work, Outside,
}
use grid_runner.Runner.Workspace.{Checkout, prepare_workspace}
use grid_runner.Runner.Docker.{Request, RunResult, Execution, docker_execute}
use grid_runner.Runner.Docker.Removal.{IsTidy, docker_execute-IsTidy}

-- An implementation of `Executor`: it may do what Docker does, and leaves no container.
pub record Executor : Type 0 where
  pub run_job : Request → Work Execution
  pub tidy : (req : Request) (t : Trace) → IsTidy t (run_job req t).1

abbrev pub docker_executor : Outside → Executor
docker_executor O = record { run_job = docker_execute O; tidy = docker_execute-IsTidy O }

-- A Go panic ends the process, after the deferred calls.
pub data Ended : Type 0 where
  returned panicked : Ended

pub record Delivery : Type 0 where
  pub job : Job
  pub clone_token : String

abbrev pub is_zero : ℤ → Bool
is_zero (pos zero) = true
is_zero _ = false

abbrev minus_one : ℤ
minus_one = negsuc 0

-- `status, msg`.
abbrev pub verdict : RunResult → JobStatus × String
verdict r =
    if r.timed_out
    then (failed, "job exceeded timeout")
    else if is_zero r.exit_code
    then (success, "")
    else (failed, "")

module _ (O : Outside) (E : Executor) {F : Type 0} (nano : F → ℕ) (cfg : Config F) where
  abbrev pub checkout : Delivery → Checkout
  checkout d = record {
    root = cfg.workspace_root;
    job_id = d.job.id;
    clone_url = d.job.clone_url;
    commit_sha = d.job.commit_sha;
    branch = d.job.branch;
    token = d.clone_token;
  }

  abbrev pub with_image : SpecJob → SpecJob
  with_image step = if step.image == "" then record step { image = cfg.default_image } else step

  abbrev pub request : Job → SpecJob → String → Request
  request job step dir = record {
    job = job;
    spec = step;
    workspace = dir;
    timeout = cfg.job_timeout;
    nano_cpus = nano cfg.job_cpus;
    memory_mb = cfg.job_memory_mb;
    network = cfg.docker_network;
  }

  abbrev pub fail : String → String → String → Work Ended
  fail id reason e t = (
    returned,
    reported id failed minus_one (reason <> (": " <> e))
        ∷ closed_stream
        ∷ said ("forgerun: " <> (reason <> (": " <> (e <> "\n"))))
        ∷ t,
  )

  abbrev pub abandon : Work Ended
  abandon t =
      (returned, closed_stream ∷ said "\nforgerun: job cancelled by the control plane\n" ∷ t)

  abbrev pub report_run : String → Execution → Work Ended
  report_run id (r, some e) t = (returned, reported id failed minus_one e ∷ t)
  report_run id (r, none) t = (returned, reported id (verdict r).0 r.exit_code (verdict r).1 ∷ t)

  abbrev pub after_run : String → Execution × Trace → Ended × Trace
  after_run id (x, t) =
      let t' = cleared_active id ∷ t in
      if O.is_abandoned t' then abandon t' else report_run id x (closed_stream ∷ t')

  abbrev pub run_step : Job → SpecJob → String → Work Ended
  run_step job step dir t =
      let text =
        "forgerun: running job " <> (O.quoted step.name <> (" in " <> (step.image <> "\n\n"))) in
      after_run job.id (E.run_job (request job step dir) (said text ∷ t))

  abbrev pub run_primary : Job → String → Option SpecJob → Work Ended
  run_primary job dir none t = (panicked, t)
  run_primary job dir (some step) t = run_step job (with_image step) dir t

  abbrev pub run_spec : Job → String → Result Spec → Work Ended
  run_spec job dir (err e) t = fail job.id ("cannot read " <> job.config_ref) (O.err_text e) t
  run_spec job dir (ok spec) t = run_primary job dir (primary spec) t

  abbrev pub parse_read : Job → String → Outcome (List ℕ) → Work Ended
  parse_read job dir (fails e) t = fail job.id ("cannot read " <> job.config_ref) e t
  parse_read job dir (gives text) t = run_spec job dir (parse O.decode_spec text) t

  -- What the workspace is used for; `job.CommitSHA[:8]` is out of range of a shorter text.
  unfoldable pub build : Job → String → Work Ended
  build job dir t =
      let short = slice job.commit_sha 0 8 in
      let t' = said ("forgerun: checked out " <> (job.branch <> (" at " <> (short <> "\n")))) ∷ t in
      let file = O.join_path dir job.config_ref in
      if ltb (len job.commit_sha) 8
      then (panicked, t)
      else parse_read job dir (O.read t' file) (read_file file ∷ t')

  -- The deferred `os.RemoveAll(dir)`.
  abbrev pub remove_after : String → Ended × Trace → Ended × Trace
  remove_after dir (r, t) = (r, removed_dir dir ∷ t)

  abbrev pub in_workspace : Job → Outcome String × Trace → Ended × Trace
  in_workspace job (fails e, t) =
      if O.is_abandoned t then abandon t else fail job.id "checkout failed" e t
  in_workspace job (gives dir, t) = remove_after dir (build job dir t)

  abbrev pub marked_running : Delivery → Option String → Work Ended
  marked_running d (some e) t = (returned, t)
  marked_running d none t = in_workspace d.job (prepare_workspace O (checkout d) t)

  -- The deferred `clearActive`.
  abbrev pub clear_after : String → Ended × Trace → Ended × Trace
  clear_after id (r, t) = (r, cleared_active id ∷ t)

  unfoldable pub execute : Delivery → Work Ended
  execute d t =
      let id = d.job.id in
      clear_after id
        (marked_running d (O.ask_start (set_active id ∷ t) id) (asked_start id ∷ set_active id ∷ t))
