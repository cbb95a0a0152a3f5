-- ===== src/Models/Labels.antt =====
-- What the label test `Runner.CanRun` of internal/models/runner.go decides.
use grid_runner.Prelude.{
  String, ◌≡◌, refl, ◌↔◌, ◌⊎◌, inl, inr, Bool, true, false, List, [], ◌∷◌, arith, ◌==◌, eq_iff,
  if◌then◌else◌,
}
use grid_runner.Models.{Runner, have_labels, has_all, can_run}

-- `k` is one of `ls`.
abbrev HasLabel : String → List String → Type 0
HasLabel k [] = ⊥
HasLabel k (l ∷ ls) = (l ≡ k) ⊎ HasLabel k ls

have_labels-keeps :
    (ls : List String) (have : String → Bool) (k : String)
    → have k ≡ true
    → have_labels ls have k ≡ true
unfolding have_labels
have_labels-keeps [] have k h = h
have_labels-keeps (l ∷ ls) have k h =
    have_labels-keeps ls (λ j. if l == j then true else have j) k (ground arith)

have_labels-marks :
    (ls : List String) (have : String → Bool) (k : String)
    → HasLabel k ls
    → have_labels ls have k ≡ true
unfolding have_labels
have_labels-marks [] have k h = absurd h
have_labels-marks (l ∷ ls) have k (inl e) =
    have_labels-keeps ls (λ j. if l == j then true else have j) k (ground (arith, eq_iff l k))
have_labels-marks (l ∷ ls) have k (inr h) =
    have_labels-marks ls (λ j. if l == j then true else have j) k h

have_labels-only :
    (ls : List String) (have : String → Bool) (k : String)
    → have_labels ls have k ≡ true
    → (have k ≡ true) ⊎ HasLabel k ls
unfolding have_labels
have_labels-only [] have k h = inl h
have_labels-only (l ∷ ls) have k h =
    ground (arith, eq_iff l k, have_labels-only ls (λ j. if l == j then true else have j) k h)

has_all_sound :
    (have : String → Bool) (required : List String)
    → has_all have required ≡ true
    → (k : String) → HasLabel k required
    → have k ≡ true
unfolding has_all
has_all_sound have [] h k m = absurd m
has_all_sound have (need ∷ rest) h k (inl e) = ground arith
has_all_sound have (need ∷ rest) h k (inr m) = has_all_sound have rest (ground arith) k m

has_all_complete :
    (have : String → Bool) (required : List String)
    → ((k : String) → HasLabel k required → have k ≡ true)
    → has_all have required ≡ true
unfolding has_all
has_all_complete have [] h = refl
has_all_complete have (need ∷ rest) h =
    ground (arith, h need (inl refl), has_all_complete have rest (λ k m. h k (inr m)))

-- A runner can run a job exactly when it carries every label that the job requires.
can_run_iff :
    (r : Runner) (required : List String)
    → (can_run r required ≡ true) ↔ ((k : String) → HasLabel k required → HasLabel k r.labels)
unfolding can_run
can_run_iff r required = (
  λ h k m. elim (have_labels-only r.labels (λ _. false) k (has_all_sound _ required h k m)) [
    | inl e ↦ absurd (cc)
    | inr m' ↦ m'
  ],
  λ h. has_all_complete _ required (λ k m. have_labels-marks r.labels (λ _. false) k (h k m)),
)
