-- ===== src/Prelude/Text.antt =====
-- Go's `<` on strings. UTF-8 keeps the order of code points, so bytes are not needed.
use Prim.Native.Char.{code}
use Prim.Native.String.{String}
use mathlib.Core.Path.{◌≡◌, refl}
use mathlib.Core.Logic.{◌⊎◌}
use mathlib.Core.Bool.{Bool, true, false}
use native.Mathlib.Omega.{arith}
use text.Mathlib.TextEquality.{Char-path}
use grid_runner.Prelude.Tests.{ltb, if◌then◌else◌}

unfoldable pub text_lt : String → String → Bool
text_lt String.[] String.[] = false
text_lt String.[] (String.◌∷◌ d t) = true
text_lt (String.◌∷◌ c s) String.[] = false
text_lt (String.◌∷◌ c s) (String.◌∷◌ d t) =
    if ltb (code c) (code d) then true else if ltb (code d) (code c) then false else text_lt s t

pub text_lt_trans : (a b c : String) → text_lt a b ≡ true → text_lt b c ≡ true → text_lt a c ≡ true
unfolding text_lt
text_lt_trans String.[] String.[] c h k = ground arith
text_lt_trans String.[] (String.◌∷◌ d t) String.[] h k = ground arith
text_lt_trans String.[] (String.◌∷◌ d t) (String.◌∷◌ e u) h k = ground arith
text_lt_trans (String.◌∷◌ c s) String.[] e h k = ground arith
text_lt_trans (String.◌∷◌ c s) (String.◌∷◌ d t) String.[] h k = ground arith
text_lt_trans (String.◌∷◌ c s) (String.◌∷◌ d t) (String.◌∷◌ e u) h k =
    ground (arith, text_lt_trans s t u)

pub text_lt-cotrans :
    (a b c : String) → text_lt a c ≡ true → (text_lt a b ≡ true) ⊎ (text_lt b c ≡ true)
unfolding text_lt
text_lt-cotrans String.[] String.[] c h = ground arith
text_lt-cotrans String.[] (String.◌∷◌ d t) c h = ground arith
text_lt-cotrans (String.◌∷◌ c s) b String.[] h = ground arith
text_lt-cotrans (String.◌∷◌ c s) String.[] (String.◌∷◌ e u) h = ground arith
text_lt-cotrans (String.◌∷◌ c s) (String.◌∷◌ d t) (String.◌∷◌ e u) h =
    ground (arith, text_lt-cotrans s t u)

pub text_lt_irrefl : (a : String) → text_lt a a ≡ false
unfolding text_lt
text_lt_irrefl String.[] = ground arith
text_lt_irrefl (String.◌∷◌ c s) = ground (arith, text_lt_irrefl s)

-- Neither of two texts comes before the other only when they are one.
pub text_lt_antisym : (a b : String) → text_lt a b ≡ false → text_lt b a ≡ false → a ≡ b
unfolding text_lt
text_lt_antisym String.[] String.[] h k = refl
text_lt_antisym String.[] (String.◌∷◌ d t) h k = ground arith
text_lt_antisym (String.◌∷◌ c s) String.[] h k = ground arith
text_lt_antisym (String.◌∷◌ c s) (String.◌∷◌ d t) h k =
    let first : code c ≡ code d = ground arith in
    let one : c ≡ d = Char-path c d first in
    let behind : text_lt s t ≡ false = ground arith in
    let ahead : text_lt t s ≡ false = ground arith in
    let rest = text_lt_antisym s t behind ahead in cc
