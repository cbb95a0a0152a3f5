-- ===== src/Prelude/Decimal.antt =====
-- Go's strconv.Itoa of a number that is not negative.
use Prim.Native.Nat.{ℕ, zero, suc, ◌+◌, ◌/◌, ◌%◌, ◌<◌}
use Prim.Native.Char.{Char, code}
use Prim.Native.String.{String}
use mathlib.Core.Path.{◌≡◌, refl}
use native.Mathlib.Omega.{arith}
use grid_runner.Prelude.Tests.{ltb, if◌then◌else◌}

-- The character at a position; the table has one for every digit.
abbrev pub pick : ℕ → String → Char
pick n String.[] = "0"
pick zero (String.◌∷◌ c s) = c
pick (suc n) (String.◌∷◌ c s) = pick n s

abbrev pub digit : ℕ → Char
digit n = pick n "0123456789"

pub code-digit : (n : ℕ) → n < 10 → code (digit n) ≡ 48 + n
code-digit zero h = refl
code-digit (suc zero) h = refl
code-digit (suc (suc zero)) h = refl
code-digit (suc (suc (suc zero))) h = refl
code-digit (suc (suc (suc (suc zero)))) h = refl
code-digit (suc (suc (suc (suc (suc zero))))) h = refl
code-digit (suc (suc (suc (suc (suc (suc zero)))))) h = refl
code-digit (suc (suc (suc (suc (suc (suc (suc zero))))))) h = refl
code-digit (suc (suc (suc (suc (suc (suc (suc (suc zero)))))))) h = refl
code-digit (suc (suc (suc (suc (suc (suc (suc (suc (suc zero))))))))) h = refl
code-digit (suc (suc (suc (suc (suc (suc (suc (suc (suc (suc n)))))))))) h = absurd (omega arith)

-- The last digits first; a number has fewer digits than `fuel`, which is its successor.
unfoldable pub digits : ℕ → ℕ → String → String
digits zero n shown = shown
digits (suc fuel) n shown =
    let rest = digits fuel (n / 10) (String.◌∷◌ (digit (n % 10)) shown) in
    if ltb n 10 then String.◌∷◌ (digit n) shown else rest

unfoldable pub itoa : ℕ → String
itoa n = digits (suc n) n ""
