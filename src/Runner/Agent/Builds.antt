-- ===== src/Runner/Agent/Builds.antt =====
-- internal/runner/agent.go: a build in its workspace, and the ways in which it ends.
use grid_runner.Runner.Agent.Outcomes.{
  Extends, Extends-trans, Told, Told-within, Finished, Finished-after, fail-Finished, verdict-cases,
  job_file,
}
use mathlib.Core.List.{append_assoc}
use Prim.Native.String.{◌++◌ as ◌<>◌, len, slice}
use grid_runner.Prelude.{
  ℕ, ◌≡◌, refl, sym, ap, ◌∙◌, inl, inr, String, false, none, some, List, [], ◌∷◌, ◌++◌, ltb,
  eq_refl, Bool-cases, pos, negsuc,
}
use grid_runner.Fallible.{Result, ok, err}
use grid_runner.Models.{Job, failed}
use grid_runner.JobSpec.{Spec, SpecJob, parse, primary}
use grid_runner.JobSpec.Choice.{parse-primary}
use grid_runner.Config.{Config}
use grid_runner.Runner.{
  Outcome, gives, fails, made_dir, removed_dir, read_file, said, closed_stream, cleared_active,
  Trace, Outside,
}
use grid_runner.Runner.Workspace.Cleanup.{commands}
use grid_runner.Runner.Docker.{Execution}
use grid_runner.Runner.Docker.Removal.{without, containers, IsTidy}
use grid_runner.Runner.Agent.{
  Executor, Ended, verdict, with_image, request, report_run, run_step, run_spec, parse_read, build,
  remove_after,
}
use grid_runner.Runner.Agent.Traces.{
  seen, seen-IsTidy, seen-commands, containers-commands, IsActive, cleared-IsActive,
}

module _ (O : Outside) (E : Executor) {F : Type 0} (nano : F → ℕ) (cfg : Config F) (job : Job)
    (dir : String) where
  -- The file is read after `x`, and its chosen job is run.
  run_step-Finished :
      (x : Trace) (text : List ℕ) (spec : Spec) (chosen : SpecJob)
      → O.read x (job_file O E nano cfg job dir) ≡ gives text
      → parse O.decode_spec text ≡ ok spec
      → primary spec ≡ some chosen
      → Finished O E nano cfg job dir x (
          run_step O E nano cfg job
            (with_image O E nano cfg chosen)
            dir
            (read_file (job_file O E nano cfg job dir) ∷ x))
  run_step-Finished x text spec chosen read parsed first =
      elim (Bool-cases (O.is_abandoned (cleared_active job.id ∷ u))) [
        | inl away ↦ rw away (
            finish _ _ refl refl (λ a. inr (cleared-IsActive job.id (seen u).active a))
              (inr (
                refl,
                inl (
                  cleared_active job.id ∷ u,
                  Extends-trans x u _ onward (_ ∷ [], refl),
                  (_ ∷ _ ∷ [], refl),
                  away,
                  ap (λ s. s.reports) same,
                ),
              )))
        | inr kept ↦ rw kept (report (E.run_job (request O E nano cfg job step dir) before).0 refl)
      ]
    where
      step : SpecJob
      step = with_image O E nano cfg chosen

      before : Trace
      before =
          said
            ("forgerun: running job " <> (O.quoted step.name <> (" in " <> (step.image <> "\n\n"))))
          ∷ read_file (job_file O E nano cfg job dir)
          ∷ x

      u : Trace
      u = (E.run_job (request O E nano cfg job step dir) before).1

      tidy : IsTidy before u
      tidy = E.tidy (request O E nano cfg job step dir) before

      same : seen u ≡ seen x
      same = seen-IsTidy before u tidy

      onward : Extends x u
      onward = Extends-trans x before u (_ ∷ _ ∷ [], refl) (tidy.0.0, tidy.0.1)

      finish :
          (r : Ended) (w : Trace)
          → (seen w).dirs ≡ (seen u).dirs
          → containers w ≡ containers u
          → (IsActive job.id (seen u).active → IsActive job.id (seen w).active)
          → Told O E nano cfg job dir x (r, w)
          → Finished O E nano cfg job dir x (r, w)
      finish r w d c a told = record {
        dirs = d ∙ ap (λ s. s.dirs) same;
        containers = c ∙ tidy.1;
        active = λ h. a (rw same h);
        told = told;
      }

      report :
          (run : Execution)
          → (E.run_job (request O E nano cfg job step dir) before).0 ≡ run
          → Finished O E nano cfg job dir x
              (report_run O E nano cfg job.id run (closed_stream ∷ cleared_active job.id ∷ u))
      report (r, some e) ran =
          finish _ _ refl refl (λ a. inr (cleared-IsActive job.id (seen u).active a))
            (inr (
              refl,
              inr (
                failed,
                negsuc 0,
                e,
                inl refl,
                ap (λ s. (job.id, failed, negsuc 0, e) ∷ s.reports) same,
              ),
            ))
      report (r, none) ran =
          finish _ _ refl refl (λ a. inr (cleared-IsActive job.id (seen u).active a))
            (inr (
              refl,
              inr (
                (verdict r).0,
                _,
                _,
                elim (verdict-cases O E nano cfg job dir r) [
                  | inl bad ↦ inl bad
                  | inr (good, in_time, code) ↦
                      let quick : r ≡ record { exit_code = pos 0; timed_out = false } = cc in
                      inr (
                        good,
                        (
                          x,
                          before,
                          text,
                          spec,
                          chosen,
                          ([], refl),
                          read,
                          parsed,
                          first,
                          (_ ∷ _ ∷ [], refl),
                          ran ∙ ap (λ y. (y, none)) quick,
                          (_ ∷ _ ∷ _ ∷ [], refl),
                        ),
                      )
                ],
                ap (λ s. (job.id, (verdict r).0, r.exit_code, (verdict r).1) ∷ s.reports) same,
              ),
            ))

  run_spec-Finished :
      (x : Trace) (text : List ℕ)
      → O.read x (job_file O E nano cfg job dir) ≡ gives text
      → Finished O E nano cfg job dir x (
          run_spec O E nano cfg job dir
            (parse O.decode_spec text)
            (read_file (job_file O E nano cfg job dir) ∷ x))
  run_spec-Finished x text read = go (parse O.decode_spec text) refl
    where
      go :
          (r : Result Spec)
          → parse O.decode_spec text ≡ r
          → Finished O E nano cfg job dir x
              (run_spec O E nano cfg job dir r (read_file (job_file O E nano cfg job dir) ∷ x))
      go (err e) same =
          Finished-after O E nano cfg job dir x (read_file (job_file O E nano cfg job dir) ∷ x) _
            (_ ∷ [], refl) refl refl (fail-Finished O E nano cfg job dir _ _ _)
      go (ok spec) same =
          let (step, found, _) = parse-primary O.decode_spec text spec same in
          rw found (run_step-Finished x text spec step read same found)

  pub build-Finished : (t : Trace) → Finished O E nano cfg job dir t (build O E nano cfg job dir t)
  unfolding build
  build-Finished t = elim (Bool-cases (ltb (len job.commit_sha) 8)) [
    | inl short ↦
        rw short
          (record { dirs = refl; containers = refl; active = λ a. a; told = inl (refl, short) })
    | inr long ↦ rw long (go (O.read x (job_file O E nano cfg job dir)) refl)
  ]
    where
      x : Trace
      x =
          said (
            "forgerun: checked out "
            <> (job.branch <> (" at " <> (slice job.commit_sha 0 8 <> "\n"))))
          ∷ t

      go :
          (answer : Outcome (List ℕ))
          → O.read x (job_file O E nano cfg job dir) ≡ answer
          → Finished O E nano cfg job dir t (
              parse_read O E nano cfg job dir answer
                (read_file (job_file O E nano cfg job dir) ∷ x))
      go (fails e) read =
          Finished-after O E nano cfg job dir t (read_file (job_file O E nano cfg job dir) ∷ x) _
            (_ ∷ _ ∷ [], refl) refl refl (fail-Finished O E nano cfg job dir _ e _)
      go (gives text) read =
          Finished-after O E nano cfg job dir t x _ (_ ∷ [], refl) refl refl
            (run_spec-Finished x text read)

  pub removed-Finished :
      (t u : Trace) (out : Ended × Trace)
      → Extends t u
      → seen u ≡ record (seen t) { dirs = dir ∷ (seen t).dirs }
      → containers u ≡ containers t
      → Finished O E nano cfg job dir u out
      → Finished O E nano cfg job dir t (remove_after O E nano cfg dir out)
  removed-Finished t u out x e f h = record {
    dirs = ap (without dir) (h.dirs ∙ ap (λ s. s.dirs) e) ∙ rw (eq_refl dir) refl;
    containers = h.containers ∙ f;
    active = λ a. h.active (rw e a);
    told =
        Told-within O E nano cfg job dir t u out.1 (removed_dir dir ∷ out.1) out.0 x (_ ∷ [], refl)
          (ap (λ s. s.reports) e) refl h.told;
  }

  pub dropped-Finished :
      (runs : List (List String)) (t : Trace) (out : Ended × Trace)
      → Finished O E nano cfg job dir (removed_dir dir ∷ commands dir runs ++ made_dir dir ∷ t) out
      → Finished O E nano cfg job dir t out
  dropped-Finished runs t out h =
      let base : Trace = made_dir dir ∷ t in
      let same : seen (removed_dir dir ∷ commands dir runs ++ base) ≡ seen t =
        rw (seen-commands dir runs base) (rw (eq_refl dir) refl) in
      let more : Extends t (removed_dir dir ∷ commands dir runs ++ base) = (
        removed_dir dir ∷ (commands dir runs ++ made_dir dir ∷ []),
        ap (λ w. removed_dir dir ∷ w)
            (sym (append_assoc (commands dir runs) (made_dir dir ∷ []) t)),
      ) in
      Finished-after O E nano cfg job dir t _ out more same (containers-commands dir runs base) h
