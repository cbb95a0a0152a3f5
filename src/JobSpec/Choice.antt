-- ===== src/JobSpec/Choice.antt =====
-- The job that a parsed forgerun.yml runs.
use mathlib.Core.Path.{subst}
use grid_runner.Prelude.{
  ℕ, ◌≡◌, refl, sym, ap, ◌∙◌, ◌⊎◌, inl, inr, String, true, false, Option, none, some, List, [], ◌∷◌,
  ◌==◌, eq_iff, eq_refl, text_lt, text_lt_trans, text_lt-cotrans, text_lt_irrefl, Bool-cases,
  Option-cases,
}
use grid_runner.Fallible.{ok, err, malformed}
use grid_runner.JobSpec.{
  SpecJob, Spec, has_commands, all_have_commands, set_names, checked, parse, lookup, least,
  first_by_name, primary,
}

-- No name comes before `m` and the names of `s`.
abbrev IsLeast : String → String → Spec → Type 0
IsLeast l m s =
    (text_lt m l ≡ false) × ((k : String) (i : SpecJob) → lookup k s ≡ some i → text_lt k l ≡ false)

not_before : (a b l : String) → text_lt a b ≡ false → text_lt b l ≡ false → text_lt a l ≡ false
not_before a b l h k = elim (Bool-cases (text_lt a l)) [
  | inl e ↦ elim (text_lt-cotrans a b l e) [ inl x ↦ absurd (cc) | inr y ↦ absurd (cc) ]
  | inr e ↦ e
]

before_least : (a b l : String) → text_lt a b ≡ true → text_lt a l ≡ false → text_lt b l ≡ false
before_least a b l h k = elim (Bool-cases (text_lt b l)) [
  | inl e ↦ absurd (let no = text_lt_trans a b l h e in cc)
  | inr e ↦ e
]

least-IsLeast : (m : String) (s : Spec) → IsLeast (least m s) m s
unfolding least lookup
least-IsLeast m [] = (text_lt_irrefl m, λ k i e. absurd (cc))
least-IsLeast m ((n, j) ∷ s) = elim (Bool-cases (text_lt n m)) [
  | inl e ↦
      let (first, others) = least-IsLeast n s in
      rw e (
        before_least n m (least n s) e first,
        λ k i found. elim (Bool-cases (n == k)) [
          | inl hit ↦ let same : n ≡ k = (eq_iff n k).0 hit in rw (← same) first
          | inr miss ↦ others k i (rw miss at found)
        ],
      )
  | inr e ↦
      let (first, others) = least-IsLeast m s in
      rw e (
        first,
        λ k i found. elim (Bool-cases (n == k)) [
          | inl hit ↦
              let same : n ≡ k = (eq_iff n k).0 hit in
              rw (← same) (not_before n m (least m s) e first)
          | inr miss ↦ others k i (rw miss at found)
        ],
      )
]

-- The key is in the map.
abbrev Holds : String → Spec → Type 0
Holds k s = (i : SpecJob) × (lookup k s ≡ some i)

Holds-cons : (k n : String) (j : SpecJob) (s : Spec) → Holds k s → Holds k ((n, j) ∷ s)
unfolding lookup
Holds-cons k n j s (i, e) = elim (Bool-cases (n == k)) [
  | inl hit ↦ (j, rw hit refl)
  | inr miss ↦ (i, rw miss e)
]

Holds-head : (n : String) (j : SpecJob) (s : Spec) → Holds n ((n, j) ∷ s)
unfolding lookup
Holds-head n j s = (j, rw (eq_refl n) refl)

least-before :
    (m n : String) (j : SpecJob) (s : Spec) → text_lt n m ≡ true → least m ((n, j) ∷ s) ≡ least n s
unfolding least
least-before m n j s e = rw e refl

least-after :
    (m n : String) (j : SpecJob) (s : Spec) → text_lt n m ≡ false → least m ((n, j) ∷ s) ≡ least m s
unfolding least
least-after m n j s e = rw e refl

least-found : (m : String) (s : Spec) → (least m s ≡ m) ⊎ Holds (least m s) s
unfolding least
least-found m [] = inl refl
least-found m ((n, j) ∷ s) = elim (Bool-cases (text_lt n m)) [
  | inl e ↦ elim (least-found n s) [
    | inl same ↦
        inr (
          subst (λ l. Holds l ((n, j) ∷ s)) (sym (least-before m n j s e ∙ same))
            (Holds-head n j s))
    | inr held ↦ inr (
        subst (λ l. Holds l ((n, j) ∷ s)) (sym (least-before m n j s e))
          (Holds-cons (least n s) n j s held))
  ]
  | inr e ↦ elim (least-found m s) [
    | inl same ↦ inl (least-after m n j s e ∙ same)
    | inr held ↦ inr (
        subst (λ l. Holds l ((n, j) ∷ s)) (sym (least-after m n j s e))
          (Holds-cons (least m s) n j s held))
  ]
]

-- A map with an entry has a first one by name.
pub first_by_name-some :
    (n : String) (j : SpecJob) (s : Spec)
    → (i : SpecJob) × (k : String) × (first_by_name ((n, j) ∷ s) ≡ some i)
      × (lookup k ((n, j) ∷ s) ≡ some i)
      × ((l : String) (x : SpecJob) → lookup l ((n, j) ∷ s) ≡ some x → text_lt l k ≡ false)
unfolding first_by_name lookup
first_by_name-some n j s =
    let (first, others) = least-IsLeast n s in
    let bound : (l : String) (x : SpecJob)
        → lookup l ((n, j) ∷ s) ≡ some x
        → text_lt l (least n s) ≡ false =
      λ l x found. elim (Bool-cases (n == l)) [
        | inl hit ↦ let same : n ≡ l = (eq_iff n l).0 hit in rw (← same) first
        | inr miss ↦ others l x (rw miss at found)
      ] in
    elim (least-found n s) [
      | inl same ↦
          let here : lookup (least n s) ((n, j) ∷ s) ≡ some j = rw (same, eq_refl n) refl in
          (j, least n s, here, here, bound)
      | inr held ↦
          let (i, there) = Holds-cons (least n s) n j s held in (i, least n s, there, there, bound)
    ]

-- Every job of a map under its own name, with commands.
abbrev pub IsFilled : Spec → Type 0
IsFilled s =
    (k : String) (i : SpecJob)
    → lookup k s ≡ some i
    → (i.name ≡ k) × (has_commands i.commands ≡ true)

set_names-IsFilled : (s : Spec) → all_have_commands s ≡ true → IsFilled (set_names s)
unfolding set_names all_have_commands lookup
set_names-IsFilled [] h k i found = absurd (cc)
set_names-IsFilled ((n, j) ∷ s) h k i found = elim (Bool-cases (has_commands j.commands)) [
  | inl full ↦ elim (Bool-cases (n == k)) [
    | inl hit ↦
        let this : some (record j { name = n }) ≡ some i = rw hit at found in
        let same : record j { name = n } ≡ i = cc in rw (← same) ((eq_iff n k).0 hit, full)
    | inr miss ↦ set_names-IsFilled s (rw full at h) k i (rw miss at found)
  ]
  | inr bare ↦ absurd (let bad : false ≡ true = rw bare at h in cc)
]

-- What `Primary` gives: a job under its own name, with commands, which is the one named test or,
-- when there is none, the one of the first name.
abbrev pub IsPrimary : Spec → SpecJob → Type 0
IsPrimary s j =
    (lookup j.name s ≡ some j)
    × (has_commands j.commands ≡ true)
    × ((j.name ≡ "test")
        ⊎ ((lookup "test" s ≡ none)
            × ((k : String) (i : SpecJob) → lookup k s ≡ some i → text_lt k j.name ≡ false)))

chosen :
    (n : String) (j : SpecJob) (s : Spec)
    → IsFilled ((n, j) ∷ s)
    → (i : SpecJob) × (primary ((n, j) ∷ s) ≡ some i) × IsPrimary ((n, j) ∷ s) i
unfolding primary
chosen n j s filled =
    let all = (n, j) ∷ s in
    elim (Option-cases (lookup "test" all)) [
      | inl none_named ↦
          let (i, k, first, there, bound) = first_by_name-some n j s in
          let (named, commands) = filled k i there in
          (
            i,
            rw none_named first,
            (
              ap (λ l. lookup l all) named ∙ there,
              commands,
              inr (none_named, λ l x found. ap (text_lt l) named ∙ bound l x found),
            ),
          )
      | inr (i, there) ↦
          let (named, commands) = filled "test" i there in
          (i, rw there refl, (ap (λ l. lookup l all) named ∙ there, commands, inl named))
    ]

-- When forgerun.yml is accepted, `Primary` has a job to give and does not run out of names, in
-- whatever order the map is walked: the job stands in the file under its own name and has commands;
-- it is the one named test, or there is none of that name and no name of the file comes before its
-- name.
pub parse-primary :
    (decode : List ℕ → Option Spec) (text : List ℕ) (s : Spec)
    → parse decode text ≡ ok s
    → (j : SpecJob) × (primary s ≡ some j) × IsPrimary s j
unfolding parse checked set_names
parse-primary decode text s h = go (decode text) h
  where
    go : (o : Option Spec) → checked o ≡ ok s → (j : SpecJob) × (primary s ≡ some j) × IsPrimary s j
    go none e = absurd (cc)
    go (some []) e = absurd (cc)
    go (some ((n, j) ∷ rest)) e = elim (Bool-cases (all_have_commands ((n, j) ∷ rest))) [
      | inl all ↦
          let this : ok (set_names ((n, j) ∷ rest)) ≡ ok s = rw all at e in
          let same : set_names ((n, j) ∷ rest) ≡ s = cc in
          rw (← same) (
            chosen n (record j { name = n }) (set_names rest)
              (set_names-IsFilled ((n, j) ∷ rest) all))
      | inr bare ↦ absurd (let bad : err malformed ≡ ok s = rw bare at e in cc)
    ]
