-- ===== src/Api/Numbers.antt =====
-- internal/api/jobs.go: strconv.Atoi of the numbers that a runner writes with strconv.Itoa.
use Prim.Native.Nat.{◌%◌}
use Prim.Native.Char.{code}
use grid_runner.Prelude.{
  ℕ, zero, suc, ◌+◌, ◌-◌, ◌*◌, ◌/◌, ◌≡◌, ◌<◌, ◌≤◌, refl, sym, ap, ◌∙◌, String, pos, true, false,
  ◌&&◌, some, List, ◌∷◌, arith, leb, ltb, Bool-cases, inl, inr, digit, digits, itoa, code-digit,
}
use grid_runner.Github.{codes}
use grid_runner.Api.Jobs.{atoi_digits, positive, atoi_signed, atoi}

abbrev IsDigit : ℕ → Type 0
IsDigit c = (48 ≤ c) × (c ≤ 57)

is_digit : (c : ℕ) → IsDigit c → (leb 48 c && leb c 57) ≡ true
is_digit c (low, high) = ground arith

code_digit-IsDigit : (n : ℕ) → n < 10 → IsDigit (code (digit n))
code_digit-IsDigit n h = let e = code-digit n h in (omega arith, omega arith)

atoi_digits-digit :
    (d n m : ℕ) (shown : String)
    → d < 10
    → n * 10 + d ≡ m
    → atoi_digits (codes (String.◌∷◌ (digit d) shown)) n ≡ atoi_digits (codes shown) m
atoi_digits-digit d n m shown h e =
    let value : n * 10 + (code (digit d) - 48) ≡ m = let c = code-digit d h in omega arith in
    rw (is_digit (code (digit d)) (code_digit-IsDigit d h), value) refl

atoi_digits-digits :
    (fuel n : ℕ) (shown : String)
    → n < fuel
    → atoi_digits (codes (digits fuel n shown)) 0 ≡ atoi_digits (codes shown) n
unfolding digits
atoi_digits-digits zero n shown h = absurd (omega arith)
atoi_digits-digits (suc fuel) n shown h = elim (Bool-cases (ltb n 10)) [
  | inl e ↦ rw e (atoi_digits-digit n 0 n shown (ground arith) (omega arith))
  | inr e ↦
      let big : 10 ≤ n = ground arith in
      rw e (
        atoi_digits-digits fuel (n / 10) (String.◌∷◌ (digit (n % 10)) shown) (omega arith)
        ∙ atoi_digits-digit (n % 10) (n / 10) n shown (omega arith) (omega arith))
]

digits-IsDigit :
    (fuel n : ℕ) (shown : String)
    → n < fuel
    → (c : ℕ) × (rest : List ℕ) × (codes (digits fuel n shown) ≡ c ∷ rest) × IsDigit c
unfolding digits
digits-IsDigit zero n shown h = absurd (omega arith)
digits-IsDigit (suc fuel) n shown h = elim (Bool-cases (ltb n 10)) [
  | inl e ↦ rw e (code (digit n), codes shown, refl, code_digit-IsDigit n (ground arith))
  | inr e ↦
      let big : 10 ≤ n = ground arith in
      rw e (digits-IsDigit fuel (n / 10) (String.◌∷◌ (digit (n % 10)) shown) (omega arith))
]

atoi_signed-digit :
    (c : ℕ) (cs : List ℕ) → IsDigit c → atoi_signed (c ∷ cs) ≡ positive (atoi_digits (c ∷ cs) 0)
atoi_signed-digit c cs (low, high) =
    let no_minus : (leb c 45 && leb 45 c) ≡ false = ground arith in
    let no_plus : (leb c 43 && leb 43 c) ≡ false = ground arith in rw (no_minus, no_plus) refl

-- `strconv.Atoi` of what `strconv.Itoa` writes, for a number that an int holds.
pub atoi-itoa : (n : ℕ) → n ≤ 9223372036854775807 → atoi (itoa n) ≡ some (pos n)
unfolding itoa
atoi-itoa n h =
    let (c, rest, shown, ok) = digits-IsDigit (suc n) n "" (omega arith) in
    let read : atoi_digits (c ∷ rest) 0 ≡ some n =
      ap (λ l. atoi_digits l 0) (sym shown) ∙ atoi_digits-digits (suc n) n "" (omega arith) in
    let bounded : leb n 9223372036854775807 ≡ true = ground arith in
    ap atoi_signed shown ∙ atoi_signed-digit c rest ok ∙ ap positive read ∙ rw bounded refl
