-- ===== src/Runner/Docker.antt =====
-- internal/executor: a job in a container of its own. The copying of its output, which a goroutine
-- does until the container ends, is one action.
pub mod Removal
use Prim.Native.String.{◌++◌ as ◌<>◌}
use Prim.Native.Nat.{◌%◌}
use grid_runner.Prelude.{
  ℕ, zero, suc, ◌*◌, ◌-◌, String, Bool, true, false, Option, none, some, List, [], ◌∷◌, ◌++◌, map,
  ltb, ℤ, pos, negsuc, if◌then◌else◌,
}
use grid_runner.Models.{Job}
use grid_runner.JobSpec.{SpecJob}
use grid_runner.Runner.{
  Outcome, gives, fails, Container, Action, said, listed_images, pulled_image, created, started,
  streamed_logs, awaited, removed, Trace, Work, Waited, wait_failed, exited, deadline, stopped,
  Outside,
}

-- The cpus are counted in billionths.
pub record Request : Type 0 where
  pub job : Job
  pub spec : SpecJob
  pub workspace : String
  pub timeout : ℤ
  pub nano_cpus : ℕ
  pub memory_mb : ℤ
  pub network : String

pub record RunResult : Type 0 where
  pub exit_code : ℤ
  pub timed_out : Bool

abbrev pub empty_result : RunResult
empty_result = record { exit_code = pos 0; timed_out = false }

abbrev pub killed_result : Bool → RunResult
killed_result timed_out = record { exit_code = negsuc 0; timed_out = timed_out }

-- `strings.Join(commands, "\n")`.
unfoldable pub join_lines : List String → String
join_lines [] = ""
join_lines (s ∷ []) = s
join_lines (s ∷ t ∷ rest) = s <> ("\n" <> join_lines (t ∷ rest))

unfoldable pub container_env : Request → List String
container_env req =
    map (λ (k, v). k <> ("=" <> v)) req.spec.env
    ++ "CI=true"
      ∷ ("FORGERUN_JOB_ID=" <> req.job.id)
      ∷ ("FORGERUN_COMMIT=" <> req.job.commit_sha)
      ∷ ("FORGERUN_BRANCH=" <> req.job.branch)
      ∷ []

-- The bit pattern of an int64.
unfoldable pub bits : ℤ → ℕ
bits (pos n) = n % 18446744073709551616
bits (negsuc n) = 18446744073709551615 - n % 18446744073709551616

unfoldable pub container : Request → Container
container req = record {
  name = "forgerun-" <> req.job.id;
  image = req.spec.image;
  command = "/bin/sh" ∷ "-c" ∷ ("set -e\n" <> join_lines req.spec.commands) ∷ [];
  working_dir = "/workspace";
  env = container_env req;
  bind = (req.workspace, "/workspace");
  network_mode = req.network;
  nano_cpus = req.nano_cpus;
  memory = bits req.memory_mb * 1048576 % 18446744073709551616;
  pids_limit = 512;
  security_opt = "no-new-privileges" ∷ [];
  cap_drop = "ALL" ∷ [];
}

-- The result, and the error.
abbrev pub Execution : Type 0
Execution = RunResult × Option String

abbrev pub failed : String → Execution
failed text = (empty_result, some text)

module _ (O : Outside) where
  abbrev drained : Option String → Work (Option String)
  drained e t = (e, t)

  abbrev pub pulled : String → Option String → Work (Option String)
  pulled ref (some e) t = (some ("pull image " <> (ref <> (": " <> e))), t)
  pulled ref none t = drained (O.drain_pull t ref) t

  abbrev pull : String → Work (Option String)
  pull ref t =
      let t' = said ("forgerun: pulling image " <> (ref <> "\n")) ∷ t in
      pulled ref (O.pull_image t' ref) (pulled_image ref ∷ t')

  abbrev pub listed : String → Outcome ℕ → Work (Option String)
  listed ref (fails e) t = (some ("list images: " <> e), t)
  listed ref (gives n) t = if ltb 0 n then (none, t) else pull ref t

  unfoldable pub ensure_image : String → Work (Option String)
  ensure_image ref t = listed ref (O.list_images t ref) (listed_images ref ∷ t)

  abbrev pub waited : Request → Waited → Work Execution
  waited req (wait_failed e) t = (failed ("wait for container: " <> e), t)
  waited req (exited code) t = ((record { exit_code = code; timed_out = false }, none), t)
  waited req deadline t = (
    (killed_result true, none),
    said (
          "\nforgerun: job exceeded its "
          <> (O.show_duration req.timeout <> " timeout, killing container\n"))
        ∷ t,
  )
  waited req (stopped e) t =
      ((killed_result false, some e), said "\nforgerun: job stopped, killing container\n" ∷ t)

  abbrev pub begun : Request → String → Option String → Work Execution
  begun req id (some e) t = (failed ("start container: " <> e), t)
  begun req id none t = let t' = awaited id ∷ streamed_logs id ∷ t in waited req (O.wait t' id) t'

  unfoldable pub run_container : Request → String → Work Execution
  run_container req id t = begun req id (O.start t id) (started id ∷ t)

  -- The deferred removal.
  abbrev pub remove_after : String → Execution × Trace → Execution × Trace
  remove_after id (r, t) = (r, removed id ∷ t)

  abbrev pub made : Request → Outcome String → Work Execution
  made req (fails e) t = (failed ("create container: " <> e), t)
  made req (gives id) t = remove_after id (run_container req id (created (container req) id ∷ t))

  abbrev pub with_image : Request → Option String × Trace → Execution × Trace
  with_image req (some e, t) = (failed e, t)
  with_image req (none, t) = made req (O.create t (container req)) t

  unfoldable pub docker_execute : Request → Work Execution
  docker_execute req t = with_image req (ensure_image req.spec.image t)
