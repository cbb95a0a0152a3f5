-- ===== src/Api/Leases.antt =====
-- internal/api/runners.go, leaseLost: when a runner is told to drop its job.
use mathlib.Core.Path.{subst}
use grid_runner.Prelude.{
  ◌≡◌, refl, ◌⊎◌, ◌↔◌, inl, inr, String, Bool, true, false, not, ◌||◌, some, arith, Option-cases,
}
use grid_runner.Fallible.{Result, ok, err, unavailable}
use grid_runner.Exec.{pure, handle}
use grid_runner.Models.{terminal}
use grid_runner.Store.{JobRow}
use grid_runner.Store.Rows.{find_row}
use grid_runner.Store.Statements.{job_has_id, get_job}
use grid_runner.Queue.{Redis}
use grid_runner.World.{World, in_store}
use grid_runner.World.Calm.{IsUntouched}
use grid_runner.Api.{owned_by}
use grid_runner.Api.Runners.{lease_lost}
use grid_runner.Api.Access.{get_job-IsQuery}

module _ ⦃R : Redis⦄ where
  -- The job is there, is not finished, and is the runner's.
  abbrev pub Holds : String → String → World → Type 0
  Holds runner_id job_id w =
      (j : JobRow) × (find_row (job_has_id job_id) w.store.jobs ≡ some j)
      × (terminal j.status ≡ false)
      × (owned_by j.runner_id runner_id ≡ true)

  -- The answer `lost`, and that nothing changed.
  abbrev pub Lease : String → String → World → Result Bool × World → Type 0
  Lease runner_id job_id w (r, v) =
      (lost : Bool) × (r ≡ ok lost)
      × IsUntouched w v
      × ((((in_store (get_job job_id) w).0 ≡ err unavailable → ⊥)
            × ((lost ≡ false) ↔ Holds runner_id job_id w))
          ⊎ (((in_store (get_job job_id) w).0 ≡ err unavailable) × (lost ≡ true)))

  both_false : (b c : Bool) → (b || not c) ≡ false → (b ≡ false) × (c ≡ true)
  both_false b c h = (ground arith, ground arith)

  neither : (b c : Bool) → b ≡ false → c ≡ true → (b || not c) ≡ false
  neither b c h k = ground arith

  -- Asking whether a runner has lost a job changes nothing. When the database answers the one read of
  -- the job, the answer is no exactly for a job that is there, is not finished, and is assigned to
  -- the runner; when it does not, the answer is yes, also for a job that the runner holds.
  pub lease_lost-Lease :
      (runner_id job_id : String) (w : World)
      → Lease runner_id job_id w (lease_lost runner_id job_id w)
  unfolding lease_lost handle pure
  lease_lost-Lease runner_id job_id w =
      let (v, cases, same) = get_job-IsQuery job_id w in
      elim cases [
        | inl e ↦ elim (Option-cases (find_row (job_has_id job_id) w.store.jobs)) [
          | inl gone ↦
              rw (e, gone)
                (
                  true,
                  refl,
                  same,
                  inl ((λ h. absurd (cc)), ((λ h. absurd (cc)), λ h. absurd (let no = h.1 in cc))),
                )
          | inr (j, found) ↦
              rw (e, found)
                (
                  terminal j.status || not (owned_by j.runner_id runner_id),
                  refl,
                  same,
                  inl (
                    (λ h. absurd (cc)),
                    (
                      (λ h.
                          let (open_, mine) =
                            both_false (terminal j.status) (owned_by j.runner_id runner_id) h in
                          (j, refl, open_, mine)),
                      λ h.
                          let (x, is_j, open_, mine) = h in
                          let this : x ≡ j = cc in
                          subst
                            (λ (y : JobRow).
                              (terminal y.status || not (owned_by y.runner_id runner_id)) ≡ false)
                            this (neither _ _ open_ mine),
                    ),
                  ),
                )
        ]
        | inr e ↦ rw e (true, refl, same, inr (refl, refl))
      ]
