-- ===== src/JobSpec/Entries.antt =====
-- internal/jobspec/jobspec.go, Primary: Go walks a map in any order, so a map is its entries up to
-- order.
use mathlib.Core.Quot
use mathlib.Core.Quot.{Quot}
use text.Mathlib.TextEquality.{IsScalar-prop}
use grid_runner.Prelude.{
  ◌≡◌, refl, sym, ap, ◌∙◌, String, Option, none, some, [], ◌∷◌, text_lt_antisym, eq_refl,
}
use grid_runner.JobSpec.{SpecJob, Spec, lookup, first_by_name, primary}
use grid_runner.JobSpec.Choice.{first_by_name-some}

-- The two lists are one map: every name stands for the same job.
abbrev pub SameEntries : Spec → Spec → Type 0
SameEntries s t = (k : String) → lookup k s ≡ lookup k t

lookup-first : (n : String) (j : SpecJob) (s : Spec) → lookup n ((n, j) ∷ s) ≡ some j
unfolding lookup
lookup-first n j s = rw (eq_refl n) refl

nothing_in :
    (n : String) (j : SpecJob) (s : Spec) → (lookup n [] ≡ lookup n ((n, j) ∷ s)) → none ≡ some j
unfolding lookup
nothing_in n j s h = h ∙ lookup-first n j s

first_by_name-SameEntries : (s t : Spec) → SameEntries s t → first_by_name s ≡ first_by_name t
first_by_name-SameEntries [] [] same = refl
first_by_name-SameEntries [] ((n, j) ∷ t) same = absurd (let bad = nothing_in n j t (same n) in cc)
first_by_name-SameEntries ((n, j) ∷ s) [] same =
    absurd (let bad = nothing_in n j s (sym (same n)) in cc)
first_by_name-SameEntries ((n, j) ∷ s) ((m, i) ∷ t) same =
    let (a, k, first, there, bound) = first_by_name-some n j s in
    let (b, l, other, here, limit) = first_by_name-some m i t in
    let one : k ≡ l =
      text_lt_antisym k l (limit k a (sym (same k) ∙ there)) (bound l b (same l ∙ here)) in
    let found : lookup k ((m, i) ∷ t) ≡ some b = ap (λ x. lookup x ((m, i) ∷ t)) one ∙ here in
    first ∙ (sym there ∙ same k ∙ found) ∙ sym other

-- `Primary` does not depend on the order in which the map is walked, whatever jobs it holds: two
-- lists of entries with the same job under every name give the same answer.
pub primary-SameEntries : (s t : Spec) → SameEntries s t → primary s ≡ primary t
unfolding primary
primary-SameEntries s t same = rw (same "test", first_by_name-SameEntries s t same) refl

-- forgerun.yml as the map that Go has: its entries without their order.
abbrev Jobs : Type 0
Jobs = Quot SameEntries

-- `Primary` on a map.
primary_of : Jobs → Option SpecJob
primary_of = Quot.lift (hlevel IsScalar-prop) primary primary-SameEntries
