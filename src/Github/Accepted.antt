-- ===== src/Github/Accepted.antt =====
-- What holds of every event that the control plane acts on.
use Prim.Native.String.{len}
use text.Mathlib.Text.{starts_with}
use mathlib.Core.List.{reverse-append, reverse-reverse}
use mathlib.Core.Path.{subst}
use grid_runner.Prelude.{
  ℕ, ◌≡◌, ◌≢◌, refl, sym, ap, ◌∙◌, ◌⊎◌, String, true, false, Option, none, some, List, [], ◌∷◌,
  ◌++◌, reverse, arith, ◌==◌, eq_iff, inl, inr, Bool-cases,
}
use grid_runner.Fallible.{ok}
use grid_runner.Github.{
  Event, Crypto, PushPayload, PullRequestPayload, codes, in_set, trim_left, trim, is_nil,
  hex_alphabet, is_sha, validate, push_event, pull_request_event, parse_push, parse_pull_request,
  parse_event,
}

abbrev pub AllHex : List ℕ → Type 0
AllHex [] = Unit {0}
AllHex (c ∷ cs) = (in_set hex_alphabet c ≡ true) × AllHex cs

AllHex-last : (cs : List ℕ) (c : ℕ) → AllHex (cs ++ c ∷ []) → in_set hex_alphabet c ≡ true
AllHex-last [] c h = h.0
AllHex-last (d ∷ cs) c h = AllHex-last cs c h.1

trim_left_nil : (cs : List ℕ) → trim_left hex_alphabet cs ≡ [] → AllHex cs
unfolding trim_left
trim_left_nil [] h = tt
trim_left_nil (c ∷ cs) h = elim (Bool-cases (in_set hex_alphabet c)) [
  | inl hex ↦ (hex, trim_left_nil cs (ground arith))
  | inr other ↦ absurd (ground arith)
]

-- What is left begins with a character that is not trimmed.
trim_left_cases :
    (cs : List ℕ)
    → (trim_left hex_alphabet cs ≡ [])
      ⊎ ((c : ℕ) × (rest : List ℕ) × (trim_left hex_alphabet cs ≡ c ∷ rest)
          × (in_set hex_alphabet c ≡ false))
unfolding trim_left
trim_left_cases [] = inl refl
trim_left_cases (c ∷ cs) = elim (Bool-cases (in_set hex_alphabet c)) [
  | inl hex ↦ rw hex (trim_left_cases cs)
  | inr other ↦ inr (c, cs, ground arith, other)
]

reverse_nil : (cs : List ℕ) → reverse cs ≡ [] → cs ≡ []
reverse_nil cs e = sym (reverse-reverse cs) ∙ ap reverse e

is_nil-eq : (cs : List ℕ) → is_nil cs ≡ true → cs ≡ []
is_nil-eq [] h = refl
is_nil-eq (c ∷ cs) h = absurd (cc)

trim_nil : (cs : List ℕ) → trim hex_alphabet cs ≡ [] → AllHex cs
trim_nil cs h = elim (trim_left_cases cs) [
  | inl e ↦ trim_left_nil cs e
  | inr (c, rest, e, other) ↦
      let hex : AllHex (reverse (trim_left hex_alphabet cs)) = trim_left_nil _ (reverse_nil _ h) in
      let split : reverse (trim_left hex_alphabet cs) ≡ reverse rest ++ c ∷ [] =
        ap reverse e ∙ reverse-append (c ∷ []) rest in
      absurd (ground (arith, AllHex-last (reverse rest) c (subst AllHex split hex)))
]

-- The fields of an accepted event are fit to be handed to git and to Docker.
pub record IsFit (e : Event) : Type 0 where
  pub repository : in_set (codes e.repository) b'/' ≡ true
  pub sha_length : len e.commit_sha ≡ 40
  pub sha_digits : AllHex (codes e.commit_sha)
  pub https : starts_with e.clone_url "https://" ≡ true
  pub branch : e.branch ≢ ""

validate-IsFit : (e f : Event) → validate e ≡ ok f → (e ≡ f) × IsFit f
unfolding validate is_sha
validate-IsFit e f h =
    let same : e ≡ f = ground arith in
    let trimmed : is_nil (trim hex_alphabet (codes e.commit_sha)) ≡ true = ground arith in
    let digits = trim_nil (codes e.commit_sha) (is_nil-eq _ trimmed) in
    (
      same,
      record {
        repository = ground arith;
        sha_length = ground arith;
        sha_digits = subst (λ (x : Event). AllHex (codes x.commit_sha)) same digits;
        https = ground arith;
        branch = ground (arith, eq_iff e.branch "");
      },
    )

parse_push-IsFit :
    (p : Option PushPayload) (e : Event) → parse_push p ≡ ok e → IsFit e × (e.event_type ≡ "push")
unfolding parse_push
parse_push-IsFit none e h = absurd (cc)
parse_push-IsFit (some p) e h =
    let (same, fit) = validate-IsFit (push_event p) e (ground arith) in (fit, ground arith)

parse_pull_request-IsFit :
    (p : Option PullRequestPayload) (e : Event)
    → parse_pull_request p ≡ ok e
    → IsFit e × (e.event_type ≡ "pull_request")
unfolding parse_pull_request
parse_pull_request-IsFit none e h = absurd (cc)
parse_pull_request-IsFit (some p) e h =
    let (same, fit) = validate-IsFit (pull_request_event p) e (ground arith) in (fit, ground arith)

-- An event that is not refused and not ignored has the type of its header, which is one of the two
-- that are built, and fields that are fit to be handed to git and to Docker: a repository with a
-- slash, a commit of forty lower-case hexadecimal digits, an https clone URL and a branch.
pub parse_event-IsFit :
    (C : Crypto) (event_type : String) (body : List ℕ) (e : Event)
    → parse_event C event_type body ≡ ok e
    → IsFit e
      × (e.event_type ≡ event_type)
      × ((event_type ≡ "push") ⊎ (event_type ≡ "pull_request"))
unfolding parse_event
parse_event-IsFit C event_type body e h = elim (Bool-cases (event_type == "push")) [
  | inl is_push ↦
      let (fit, type) = parse_push-IsFit (C.decode_push body) e (ground arith) in
      let named : event_type ≡ "push" = (eq_iff _ _).0 is_push in (fit, type ∙ sym named, inl named)
  | inr no_push ↦ elim (Bool-cases (event_type == "pull_request")) [
    | inl is_pull ↦
        let (fit, type) = parse_pull_request-IsFit (C.decode_pull_request body) e (ground arith) in
        let named : event_type ≡ "pull_request" = (eq_iff _ _).0 is_pull in
        (fit, type ∙ sym named, inr named)
    | inr no_pull ↦ absurd (ground arith)
  ]
]
