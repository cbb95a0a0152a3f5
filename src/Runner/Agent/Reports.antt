-- ===== src/Runner/Agent/Reports.antt =====
-- internal/runner/agent.go: what the control plane is told of a job, and what is left on the host.
use mathlib.Core.List.{append_assoc}
use mathlib.Core.Path.{subst}
use Prim.Native.String.{len}
use grid_runner.Prelude.{
  ℕ, ◌≤◌, ◌≡◌, refl, sym, ◌∙◌, ◌⊎◌, inl, inr, String, true, false, Option, none, some, [], ◌∷◌,
  ◌++◌, le→ltb, Bool-cases,
}
use grid_runner.Config.{Config}
use grid_runner.Runner.{Outcome, fails, made_dir, set_active, asked_start, Trace, Outside}
use grid_runner.Runner.Workspace.{workspace_dir, checkout_sha, prepare_workspace}
use grid_runner.Runner.Workspace.Cleanup.{commands, Ended as Checked, prepare_workspace-Ended}
use grid_runner.Runner.Docker.Removal.{containers}
use grid_runner.Runner.Agent.{
  Executor, returned, Delivery, checkout, in_workspace, marked_running, clear_after, execute,
}
use grid_runner.Runner.Agent.Traces.{seen, seen-commands, containers-commands, cleared-IsActive}
use grid_runner.Runner.Agent.Builds.{build-Finished, removed-Finished, dropped-Finished}
use grid_runner.Runner.Agent.Outcomes.{
  IsReported, IsReported-within, Finished, fail-Finished, abandon-Finished,
}

module _ (O : Outside) (E : Executor) {F : Type 0} (nano : F → ℕ) (cfg : Config F)
    (d : Delivery) where
  abbrev workspace : String
  workspace = workspace_dir O (checkout O E nano cfg d)

  in_workspace-Finished :
      (t : Trace)
      → Finished O E nano cfg d.job workspace t
          (in_workspace O E nano cfg d.job (prepare_workspace O (checkout O E nano cfg d) t))
  in_workspace-Finished t =
      go (prepare_workspace O (checkout O E nano cfg d) t)
        (prepare_workspace-Ended O (checkout O E nano cfg d) t)
    where
      refused :
          (text : String) (u : Trace)
          → Finished O E nano cfg d.job workspace u
              (in_workspace O E nano cfg d.job (fails text, u))
      refused text u = elim (Bool-cases (O.is_abandoned u)) [
        | inl away ↦ rw away (abandon-Finished O E nano cfg d.job workspace u away)
        | inr kept ↦ rw kept (fail-Finished O E nano cfg d.job workspace "checkout failed" text u)
      ]

      go :
          (out : Outcome String × Trace)
          → ((text : String) × (out ≡ (fails text, t)))
            ⊎ Checked O (checkout O E nano cfg d) (made_dir workspace ∷ t) out
          → Finished O E nano cfg d.job workspace t (in_workspace O E nano cfg d.job out)
      go (r, u) (inl (text, e)) =
          subst
            (λ out. Finished O E nano cfg d.job workspace t (in_workspace O E nano cfg d.job out))
            (sym e) (refused text t)
      go (r, u) (inr (runs, known, inl (text, e, f))) =
          rw e (rw f (dropped-Finished O E nano cfg d.job workspace runs t _ (refused text _)))
      go (r, u) (inr (runs, known, inr (e, f))) = rw e (
          rw f (
            removed-Finished O E nano cfg d.job workspace t _ _
              (
                commands workspace (checkout_sha O (checkout O E nano cfg d) ∷ runs)
                    ++ made_dir workspace ∷ [],
                sym (
                    append_assoc
                      (commands workspace (checkout_sha O (checkout O E nano cfg d) ∷ runs))
                      (made_dir workspace ∷ []) t),
              )
              (seen-commands workspace (checkout_sha O (checkout O E nano cfg d) ∷ runs)
                (made_dir workspace ∷ t))
              (containers-commands workspace (checkout_sha O (checkout O E nano cfg d) ∷ runs)
                (made_dir workspace ∷ t))
              (build-Finished O E nano cfg d.job workspace _)))

  -- A start that came back with an error is the end of it.
  abbrev pub IsRefused : Trace → Trace → Type 0
  IsRefused t u =
      (e : String) × (O.ask_start (set_active d.job.id ∷ t) d.job.id ≡ some e)
      × ((seen u).reports ≡ (seen t).reports)

  -- A runner that was given a job whose commit has a name of eight characters or more reports one
  -- result of it; or it reports none, and then its request to start the job came back with an error,
  -- whether the control plane refused it or did not answer, or at a moment of this execution the job
  -- was found to be taken away. It reports a success only when the executor has, in this execution,
  -- run the primary job of the file that was read in the workspace, and that ended with exit code 0, in
  -- time and without an error.
  pub execute-IsReported :
      (t : Trace)
      → 8 ≤ len d.job.commit_sha
      → ((execute O E nano cfg d t).0 ≡ returned)
        × (IsRefused t (execute O E nano cfg d t).1
            ⊎ IsReported O E nano cfg d.job workspace t (execute O E nano cfg d t).1)
  unfolding execute
  execute-IsReported t long = go (O.ask_start (set_active d.job.id ∷ t) d.job.id) refl
    where
      go :
          (answer : Option String)
          → O.ask_start (set_active d.job.id ∷ t) d.job.id ≡ answer
          → ((clear_after O E nano cfg d.job.id (
                marked_running O E nano cfg d answer
                  (asked_start d.job.id ∷ set_active d.job.id ∷ t))).0
              ≡ returned)
            × (IsRefused t
                  (clear_after O E nano cfg d.job.id (
                    marked_running O E nano cfg d answer
                      (asked_start d.job.id ∷ set_active d.job.id ∷ t))).1
                ⊎ IsReported O E nano cfg d.job workspace t
                    (clear_after O E nano cfg d.job.id (
                      marked_running O E nano cfg d answer
                        (asked_start d.job.id ∷ set_active d.job.id ∷ t))).1)
      go (some e) same = (refl, inl (e, same, refl))
      go none same =
          elim ((in_workspace-Finished (asked_start d.job.id ∷ set_active d.job.id ∷ t)).told) [
            | inl (bad, short) ↦
                absurd
                  (let no : true ≡ false = sym short ∙ le→ltb (len d.job.commit_sha) 8 long in cc)
            | inr (fine, told) ↦ (
              fine,
              inr (
                  IsReported-within O E nano cfg d.job workspace t
                    (asked_start d.job.id ∷ set_active d.job.id ∷ t) _ _ (_ ∷ _ ∷ [], refl)
                    (_ ∷ [], refl) refl refl told),
            )
          ]

  -- However the job ends, by a panic too, the runner has removed the directory and the container
  -- that it made for the job, and its heartbeats name no job.
  pub execute-Clears :
      (t : Trace)
      → ((seen (execute O E nano cfg d t).1).dirs ≡ (seen t).dirs)
        × (containers (execute O E nano cfg d t).1 ≡ containers t)
        × ((seen (execute O E nano cfg d t).1).active ≡ none)
  unfolding execute
  execute-Clears t = go (O.ask_start (set_active d.job.id ∷ t) d.job.id)
    where
      base : Trace
      base = asked_start d.job.id ∷ set_active d.job.id ∷ t

      go :
          (answer : Option String)
          → ((seen
                (clear_after O E nano cfg d.job.id
                  (marked_running O E nano cfg d answer base)).1).dirs
              ≡ (seen t).dirs)
            × (containers
                  (clear_after O E nano cfg d.job.id (marked_running O E nano cfg d answer base)).1
                ≡ containers t)
            × ((seen
                  (clear_after O E nano cfg d.job.id
                    (marked_running O E nano cfg d answer base)).1).active
                ≡ none)
      go (some e) = (refl, refl, cleared-IsActive d.job.id (some d.job.id) (inl refl))
      go none =
          let h = in_workspace-Finished base in
          (h.dirs, h.containers, cleared-IsActive d.job.id _ (h.active (inl refl)))
