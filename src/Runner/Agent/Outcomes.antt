-- ===== src/Runner/Agent/Outcomes.antt =====
-- internal/runner/agent.go: the ways in which an execution ends, and what is reported of it.
use mathlib.Core.List.{append_assoc}
use Prim.Native.String.{len}
use grid_runner.Prelude.{
  ℕ, zero, suc, ◌≡◌, refl, sym, ap, ◌∙◌, ◌⊎◌, inl, inr, String, true, false, none, some, List, [],
  ◌∷◌, ◌++◌, ltb, Bool-cases, ℤ, pos, negsuc,
}
use grid_runner.Fallible.{ok}
use grid_runner.Models.{Job, JobStatus, success, failed}
use grid_runner.JobSpec.{Spec, SpecJob, parse, primary}
use grid_runner.Config.{Config}
use grid_runner.Runner.{gives, Trace, Outside}
use grid_runner.Runner.Docker.{RunResult}
use grid_runner.Runner.Docker.Removal.{containers}
use grid_runner.Runner.Agent.{
  Executor, Ended, returned, panicked, is_zero, verdict, with_image, request, fail, abandon,
}
use grid_runner.Runner.Agent.Traces.{seen, IsActive}

is_zero-eq : (code : ℤ) → is_zero code ≡ true → code ≡ pos 0
is_zero-eq (pos zero) h = refl
is_zero-eq (pos (suc n)) h = absurd (cc)
is_zero-eq (negsuc n) h = absurd (cc)

-- What a runner has done is what it had done, and more.
abbrev pub Extends : Trace → Trace → Type 0
Extends t u = (more : Trace) × (u ≡ more ++ t)

pub Extends-trans : (t u v : Trace) → Extends t u → Extends u v → Extends t v
Extends-trans t u v (more, e) (later, f) =
    (later ++ more, f ∙ ap (λ w. later ++ w) e ∙ sym (append_assoc later more t))

module _ (O : Outside) (E : Executor) {F : Type 0} (nano : F → ℕ) (cfg : Config F) (job : Job)
    (dir : String) where
  -- The executor ran the chosen job of the file that was read in the workspace, after `t` and before
  -- `u`, and it ended with exit code 0, within its time.
  abbrev pub HasPassed : Trace → Trace → Type 0
  HasPassed t u =
      (x y : Trace) × (text : List ℕ) × (spec : Spec) × (step : SpecJob) × Extends t x
      × (O.read x (O.join_path dir job.config_ref) ≡ gives text)
      × (parse O.decode_spec text ≡ ok spec)
      × (primary spec ≡ some step)
      × Extends x y
      × ((E.run_job (request O E nano cfg job (with_image O E nano cfg step) dir) y).0
          ≡ (record { exit_code = pos 0; timed_out = false }, none))
      × Extends (E.run_job (request O E nano cfg job (with_image O E nano cfg step) dir) y).1 u

  abbrev pub IsVerdict : Trace → Trace → JobStatus → Type 0
  IsVerdict t u status = (status ≡ failed) ⊎ ((status ≡ success) × HasPassed t u)

  -- One result is reported, unless the job was found to be taken away at a moment of the execution.
  abbrev pub IsReported : Trace → Trace → Type 0
  IsReported t u =
      ((at : Trace) × Extends t at
        × Extends at u
        × (O.is_abandoned at ≡ true)
        × ((seen u).reports ≡ (seen t).reports))
      ⊎ ((status : JobStatus) × (code : ℤ) × (text : String) × IsVerdict t u status
          × ((seen u).reports ≡ (job.id, status, code, text) ∷ (seen t).reports))

  -- The same for a later beginning and an earlier end.
  pub IsReported-within :
      (t u v w : Trace)
      → Extends t u
      → Extends v w
      → (seen u).reports ≡ (seen t).reports
      → (seen w).reports ≡ (seen v).reports
      → IsReported u v
      → IsReported t w
  IsReported-within t u v w e f same last (inl (at, before, after, away, none_)) =
      inl
        (at, Extends-trans t u at e before, Extends-trans at v w after f, away, last ∙ none_ ∙ same)
  IsReported-within t u v w e f same last (inr (status, code, text, inl bad, told)) =
      inr (
        status,
        code,
        text,
        inl bad,
        last ∙ told ∙ ap (λ rs. (job.id, status, code, text) ∷ rs) same,
      )
  IsReported-within t u v w e f same last
        (inr (
          status,
          code,
          text,
          inr (good, (x, y, bytes, spec, step, from, read, parsed, first, ran, passed, later)),
          told,
        )) =
      inr (
        status,
        code,
        text,
        inr (
          good,
          (
            x,
            y,
            bytes,
            spec,
            step,
            Extends-trans t u x e from,
            read,
            parsed,
            first,
            ran,
            passed,
            Extends-trans _ v w later f,
          ),
        ),
        last ∙ told ∙ ap (λ rs. (job.id, status, code, text) ∷ rs) same,
      )

  abbrev pub Told : Trace → Ended × Trace → Type 0
  Told t (r, u) =
      ((r ≡ panicked) × (ltb (len job.commit_sha) 8 ≡ true)) ⊎ ((r ≡ returned) × IsReported t u)

  pub record Finished (t : Trace) (out : Ended × Trace) : Type 0 where
    pub dirs : (seen out.1).dirs ≡ (seen t).dirs
    pub containers : containers out.1 ≡ containers t
    pub active : IsActive job.id (seen t).active → IsActive job.id (seen out.1).active
    pub told : Told t out

  -- What was done before may be left out, when it is not seen.
  pub Told-within :
      (t u v w : Trace) (r : Ended)
      → Extends t u
      → Extends v w
      → (seen u).reports ≡ (seen t).reports
      → (seen w).reports ≡ (seen v).reports
      → Told u (r, v)
      → Told t (r, w)
  Told-within t u v w r e f same last (inl bad) = inl bad
  Told-within t u v w r e f same last (inr (fine, told)) =
      inr (fine, IsReported-within t u v w e f same last told)

  pub Finished-after :
      (t u : Trace) (out : Ended × Trace)
      → Extends t u
      → seen u ≡ seen t
      → containers u ≡ containers t
      → Finished u out
      → Finished t out
  Finished-after t u out x e f h = record {
    dirs = h.dirs ∙ ap (λ s. s.dirs) e;
    containers = h.containers ∙ f;
    active = λ a. h.active (rw e a);
    told = Told-within t u out.1 out.1 out.0 x ([], refl) (ap (λ s. s.reports) e) refl h.told;
  }

  pub fail-Finished :
      (reason e : String) (t : Trace) → Finished t (fail O E nano cfg job.id reason e t)
  fail-Finished reason e t = record {
    dirs = refl;
    containers = refl;
    active = λ a. a;
    told = inr (refl, inr (failed, _, _, inl refl, refl));
  }

  pub abandon-Finished : (t : Trace) → O.is_abandoned t ≡ true → Finished t (abandon O E nano cfg t)
  abandon-Finished t h = record {
    dirs = refl;
    containers = refl;
    active = λ a. a;
    told = inr (refl, inl (t, ([], refl), (_ ∷ _ ∷ [], refl), h, refl));
  }

  pub verdict-cases :
      (r : RunResult)
      → ((verdict r).0 ≡ failed)
        ⊎ (((verdict r).0 ≡ success) × (r.timed_out ≡ false) × (r.exit_code ≡ pos 0))
  verdict-cases r = elim (Bool-cases r.timed_out) [
    | inl late ↦ rw late (inl refl)
    | inr in_time ↦ elim (Bool-cases (is_zero r.exit_code)) [
      | inl z ↦ rw in_time (rw z (inr (refl, refl, is_zero-eq r.exit_code z)))
      | inr other ↦ rw in_time (rw other (inl refl))
    ]
  ]

  abbrev pub job_file : String
  job_file = O.join_path dir job.config_ref
