-- ===== src/Runner/Workspace/Redaction.antt =====
-- internal/runner/workspace.go, redact: the token in the output of git.
use Prim.Native.Char.{Char}
use Prim.Native.String.{len}
use grid_runner.Prelude.{
  ℕ, zero, suc, ◌-◌, ◌≡◌, refl, sym, ◌∙◌, inl, inr, String, Bool, true, false, ◌&&◌, ◌||◌, ◌==◌,
  Bool-cases,
}
use grid_runner.Runner.Workspace.{same_char, has_prefix, replace_from, redact}

-- `strings.Contains`.
abbrev pub occurs : String → String → Bool
occurs p String.[] = has_prefix p String.[]
occurs p (String.◌∷◌ c s) = has_prefix p (String.◌∷◌ c s) || occurs p s

abbrev pub has_star : String → Bool
has_star String.[] = false
has_star (String.◌∷◌ c s) = same_char c "*" || has_star s

both-true : (a b : Bool) → (a && b) ≡ true → (a ≡ true) × (b ≡ true)
both-true true b h = (refl, h)
both-true false b h = absurd (cc)

or-false : (a b : Bool) → (a || b) ≡ false → (a ≡ false) × (b ≡ false)
or-false true b h = absurd (cc)
or-false false b h = (refl, h)

-- What is found in front of the redacted text was in front of the text.
has_prefix-replace_from :
    (p token s : String)
    → has_star p ≡ false
    → has_prefix p (replace_from token zero s) ≡ true
    → has_prefix p s ≡ true
unfolding has_prefix replace_from
has_prefix-replace_from String.[] token s plain h = refl
has_prefix-replace_from (String.◌∷◌ c p) token String.[] plain h = h
has_prefix-replace_from (String.◌∷◌ c p) token (String.◌∷◌ d s) plain h =
    elim (Bool-cases (has_prefix token (String.◌∷◌ d s))) [
      | inl hit ↦
          let first : same_char c "*" && has_prefix p _ ≡ true = rw hit at h in
          let (star, _) = both-true (same_char c "*") _ first in
          let (none_, _) = or-false (same_char c "*") (has_star p) plain in
          let bad : true ≡ false = sym star ∙ none_ in absurd (cc)
      | inr miss ↦
          let first : same_char c d && has_prefix p (replace_from token zero s) ≡ true =
            rw miss at h in
          let (same, rest) = both-true (same_char c d) _ first in
          rw same (
            has_prefix-replace_from p token s (or-false (same_char c "*") (has_star p) plain).1
              rest)
    ]

starless_prefix :
    (c : Char) (p s : String)
    → has_star (String.◌∷◌ c p) ≡ false
    → has_prefix (String.◌∷◌ c p) (String.◌∷◌ "*" s) ≡ false
unfolding has_prefix
starless_prefix c p s plain = rw (or-false (same_char c "*") (has_star p) plain).0 refl

empty_prefix : (c : Char) (p : String) → has_prefix (String.◌∷◌ c p) "" ≡ false
unfolding has_prefix
empty_prefix c p = refl

occurs-replace_from :
    (t : Char) (ts s : String) (skip : ℕ)
    → has_star (String.◌∷◌ t ts) ≡ false
    → occurs (String.◌∷◌ t ts) (replace_from (String.◌∷◌ t ts) skip s) ≡ false
unfolding replace_from
occurs-replace_from t ts String.[] skip plain = empty_prefix t ts
occurs-replace_from t ts (String.◌∷◌ c s) (suc skip) plain = occurs-replace_from t ts s skip plain
occurs-replace_from t ts (String.◌∷◌ c s) zero plain =
    elim (Bool-cases (has_prefix (String.◌∷◌ t ts) (String.◌∷◌ c s))) [
      | inl hit ↦
          let later = occurs-replace_from t ts s (len (String.◌∷◌ t ts) - 1) plain in
          rw hit (
            rw (starless_prefix t ts _ plain)
              (rw (starless_prefix t ts _ plain) (rw (starless_prefix t ts _ plain) later)))
      | inr miss ↦ rw miss (rw (apart c s miss) (occurs-replace_from t ts s zero plain))
    ]
  where
    apart :
        (c : Char) (s : String)
        → has_prefix (String.◌∷◌ t ts) (String.◌∷◌ c s) ≡ false
        → has_prefix (String.◌∷◌ t ts) (String.◌∷◌ c (replace_from (String.◌∷◌ t ts) zero s))
          ≡ false
    apart c s miss =
        elim (Bool-cases
          (has_prefix (String.◌∷◌ t ts) (String.◌∷◌ c (replace_from (String.◌∷◌ t ts) zero s)))) [
            | inr other ↦ other
            | inl found ↦
                let before =
                  has_prefix-replace_from (String.◌∷◌ t ts) (String.◌∷◌ t ts) (String.◌∷◌ c s) plain
                    (rw miss found) in
                let bad : true ≡ false = sym before ∙ miss in absurd (cc)
          ]

-- What `redact` makes of a text does not hold the token, when the token is not empty and has no "*".
pub redact-Hides :
    (s token : String)
    → (token == "") ≡ false
    → has_star token ≡ false
    → occurs token (redact s token) ≡ false
unfolding redact
redact-Hides s String.[] filled plain = absurd (cc)
redact-Hides s (String.◌∷◌ t ts) filled plain = rw filled (occurs-replace_from t ts s zero plain)
