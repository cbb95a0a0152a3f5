-- ===== src/Scheduler/Pick.antt =====
-- The pick of `CapabilityScheduler.Schedule` against a description that has no loop.
use grid_runner.Prelude.{
  ◌≡◌, refl, ◌⊎◌, inl, inr, true, false, some, List, [], ◌∷◌, arith, Bool-cases,
}
use grid_runner.Fallible.{ok, err, no_runner}
use grid_runner.Models.{Job, Runner}
use grid_runner.Scheduler.{less_recently_used, eligible, pick_best, schedule}
use grid_runner.Scheduler.Order.{
  less_recently_used_irrefl, less_recently_used_trans, less_recently_used-cotrans,
}

-- `r` stands in the list.
abbrev pub Among : Runner → List Runner → Type 0
Among r [] = ⊥
Among r (c ∷ cs) = (c ≡ r) ⊎ Among r cs

-- No eligible runner of the list is to be preferred over `r`.
abbrev pub IsUnbeaten : Job → Runner → List Runner → Type 0
IsUnbeaten job r [] = Unit {0}
IsUnbeaten job r (c ∷ cs) =
    (eligible job c ≡ true → less_recently_used c r ≡ false) × IsUnbeaten job r cs

-- No runner of the list is eligible.
abbrev pub NoneEligible : Job → List Runner → Type 0
NoneEligible job [] = Unit {0}
NoneEligible job (c ∷ cs) = (eligible job c ≡ false) × NoneEligible job cs

-- What the loop returns when it holds `b`: nobody of the rest is to be preferred over it.
abbrev Found : Job → Runner → List Runner → Runner → Type 0
Found job b cs r =
    (pick_best job (some b) cs ≡ some r)
    × ((b ≡ r) ⊎ (Among r cs × (eligible job r ≡ true)))
    × (less_recently_used b r ≡ false)
    × IsUnbeaten job r cs

module _ (job : Job) where
  Found-skip :
      (b c : Runner) (cs : List Runner) (r : Runner)
      → eligible job c ≡ false
      → Found job b cs r
      → Found job b (c ∷ cs) r
  unfolding pick_best
  Found-skip b c cs r no_fit f = (rw (no_fit) f.0, ground arith, f.2, (λ h. cc, f.3))

  Found-replace :
      (b c : Runner) (cs : List Runner) (r : Runner)
      → eligible job c ≡ true
      → less_recently_used c b ≡ true
      → Found job c cs r
      → Found job b (c ∷ cs) r
  unfolding pick_best
  Found-replace b c cs r fits less f = (
    rw (fits, less) f.0,
    ground arith,
    ground (arith, less_recently_used_trans c b r),
    (λ h. f.2, f.3),
  )

  Found-keep :
      (b c : Runner) (cs : List Runner) (r : Runner)
      → eligible job c ≡ true
      → less_recently_used c b ≡ false
      → Found job b cs r
      → Found job b (c ∷ cs) r
  unfolding pick_best
  Found-keep b c cs r fits less f = (
    rw (fits, less) f.0,
    ground arith,
    f.2,
    (λ h. ground (arith, less_recently_used-cotrans c b r), f.3),
  )

  pick_best-some : (b : Runner) (cs : List Runner) → (r : Runner) × Found job b cs r
  unfolding pick_best
  pick_best-some b [] = (b, (refl, inl refl, less_recently_used_irrefl b, tt))
  pick_best-some b (c ∷ cs) = elim (Bool-cases (eligible job c)) [
    | inl fits ↦ elim (Bool-cases (less_recently_used c b)) [
      | inl less ↦ let (r, f) = pick_best-some c cs in (r, Found-replace b c cs r fits less f)
      | inr less ↦ let (r, f) = pick_best-some b cs in (r, Found-keep b c cs r fits less f)
    ]
    | inr no_fit ↦ let (r, f) = pick_best-some b cs in (r, Found-skip b c cs r no_fit f)
  ]

-- Either no candidate is eligible and the answer is `ErrNoRunner`, or the answer is an eligible
-- candidate over which no eligible candidate is to be preferred.
abbrev pub Picked : Job → List Runner → Type 0
Picked job cs =
    (NoneEligible job cs × (schedule job cs ≡ err no_runner))
    ⊎ ((r : Runner) × (schedule job cs ≡ ok r)
        × Among r cs
        × (eligible job r ≡ true)
        × IsUnbeaten job r cs)

-- The scheduler answers with a runner whenever some candidate is eligible; the runner is an
-- eligible candidate, and no eligible candidate is less recently used.
pub schedule-Picked : (job : Job) (cs : List Runner) → Picked job cs
unfolding schedule pick_best
schedule-Picked job [] = inl (tt, refl)
schedule-Picked job (c ∷ cs) = elim (Bool-cases (eligible job c)) [
  | inl fits ↦
      let (r, f) = pick_best-some job c cs in
      inr (r, ground (arith, f.0), ground arith, ground arith, (λ h. f.2, f.3))
  | inr no_fit ↦ elim (schedule-Picked job cs) [
    | inl (none_fit, e) ↦ inl ((no_fit, none_fit), ground arith)
    | inr (r, e, among, fits, unbeaten) ↦
        inr (r, ground arith, inr among, fits, (λ h. cc, unbeaten))
  ]
]
