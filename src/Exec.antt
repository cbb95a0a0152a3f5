-- ===== src/Exec.antt =====
-- Methods that change an object and may return an error. What was written before an error stays
-- written, so the state comes back beside the error.
pub mod Always
use grid_runner.Prelude.{Bool, true, false, Option, none, some, if◌then◌else◌}
use grid_runner.Fallible.{Err, Result, ok, err}

abbrev pub Exec {ℓ} : Type ℓ → Type ℓ → Type ℓ
Exec S A = S → Result A × S

module _ {ℓ} {S A : Type ℓ} where
  unfoldable pub pure : A → Exec S A
  pure a s = (ok a, s)

  unfoldable pub raise : Err → Exec S A
  raise e s = (err e, s)

  unfoldable pub gets : (S → A) → Exec S A
  gets f s = (ok (f s), s)

  -- `if b { m } else { n }` as a command; shut, so that a rule finds its parts.
  unfoldable pub choose : Bool → Exec S A → Exec S A → Exec S A
  choose true m n = m
  choose false m n = n

  -- The same on a test of the state, inside one statement.
  unfoldable pub choose_at : (S → Bool) → Exec S A → Exec S A → Exec S A
  choose_at test m n s = if test s then m s else n s

module _ {ℓ} {S A B : Type ℓ} where
  -- `if err != nil { onerr } else { onok }` after a call.
  abbrev branch : Result A → (A → Exec S B) → (Err → Exec S B) → Exec S B
  branch (ok a) f g s = f a s
  branch (err e) f g s = g e s

  unfoldable pub handle : Exec S A → (A → Exec S B) → (Err → Exec S B) → Exec S B
  handle m f g s = let (r, s') = m s in branch r f g s'

  abbrev proceed : Result A → (A → Exec S B) → Exec S B
  proceed (ok a) f s = f a s
  proceed (err e) f s = (err e, s)

  infixl 5 ◌>>=◌ ◌>>◌
  unfoldable pub ◌>>=◌ : Exec S A → (A → Exec S B) → Exec S B
  unfolding pure raise gets
  ◌>>=◌ m f s = let (r, s') = m s in proceed r f s'

  abbrev pub ◌>>◌ : Exec S A → Exec S B → Exec S B
  m >> n = m >>= λ _. n

  -- A value that may be missing, `if v != nil`.
  unfoldable pub from_option : Option A → Exec S B → (A → Exec S B) → Exec S B
  from_option none n f = n
  from_option (some a) n f = f a
