-- ===== src/Exec/Always.antt =====
-- Relations between the states before and after a method, one rule for each way to build one.
use grid_runner.Prelude.{◌≡◌, refl, Bool, true, false, Option, none, some, if◌then◌else◌}
use grid_runner.Fallible.{Err, Result, ok, err}
use grid_runner.Exec.{
  Exec, choose, choose_at, branch, proceed, pure, raise, gets, handle, ◌>>=◌, from_option,
}

pub record IsPreorder {ℓ} {S : Type ℓ} (Q : S → S → Type ℓ) : Type ℓ where
  pub stays : (s : S) → Q s s
  pub joins : (s t u : S) → Q s t → Q t u → Q s u

-- `m` relates every state to the one it leaves, whether it returns a value or an error.
pub record Always {ℓ} {S A : Type ℓ} (Q : S → S → Type ℓ) (m : Exec S A) : Type ℓ where
  pub at : (s : S) → Q s (m s).1

module _ {ℓ} {S A : Type ℓ} {Q : S → S → Type ℓ} where
  pub Always-pure : IsPreorder Q → (a : A) → Always Q (pure a)
  unfolding pure
  Always-pure pre a = record { at = pre.stays }

  pub Always-raise : IsPreorder Q → (e : Err) → Always Q (raise {A = A} e)
  unfolding raise
  Always-raise pre e = record { at = pre.stays }

  pub Always-gets : IsPreorder Q → (f : S → A) → Always Q (gets f)
  unfolding gets
  Always-gets pre f = record { at = pre.stays }

  pub Always-choose :
      (b : Bool) (m n : Exec S A)
      → (b ≡ true → Always Q m)
      → (b ≡ false → Always Q n)
      → Always Q (choose b m n)
  unfolding choose
  Always-choose true m n hm hn = hm refl
  Always-choose false m n hm hn = hn refl

  -- A test of the state itself, inside one statement.
  pub Always-test :
      (test : S → Bool) (m n : Exec S A)
      → ((s : S) → test s ≡ true → Q s (m s).1)
      → ((s : S) → test s ≡ false → Q s (n s).1)
      → Always Q (choose_at test m n)
  unfolding choose_at
  Always-test test m n hm hn = record { at = λ s. go s (test s) (hm s) (hn s) }
    where
      go :
          (s : S) (b : Bool)
          → (b ≡ true → Q s (m s).1)
          → (b ≡ false → Q s (n s).1)
          → Q s (if◌then◌else◌ {A = Result A × S} b (m s) (n s)).1
      go s true h k = h refl
      go s false h k = k refl

module _ {ℓ} {S A B : Type ℓ} {Q : S → S → Type ℓ} where
  pub Always-handle :
      (m : Exec S A) (f : A → Exec S B) (g : Err → Exec S B)
      → IsPreorder Q
      → Always Q m
      → ((a : A) → Always Q (f a))
      → ((e : Err) → Always Q (g e))
      → Always Q (handle m f g)
  unfolding handle
  Always-handle m f g pre hm hf hg = record { at = λ s. go s (m s) (hm.at s) }
    where
      go : (s : S) (r : Result A × S) → Q s r.1 → Q s (branch r.0 f g r.1).1
      go s (ok a, t) h = pre.joins s t (f a t).1 h ((hf a).at t)
      go s (err e, t) h = pre.joins s t (g e t).1 h ((hg e).at t)

  pub Always-bind :
      (m : Exec S A) (f : A → Exec S B)
      → IsPreorder Q
      → Always Q m
      → ((a : A) → Always Q (f a))
      → Always Q (m >>= f)
  unfolding ◌>>=◌
  Always-bind m f pre hm hf = record { at = λ s. go s (m s) (hm.at s) }
    where
      go : (s : S) (r : Result A × S) → Q s r.1 → Q s (proceed r.0 f r.1).1
      go s (ok a, t) h = pre.joins s t (f a t).1 h ((hf a).at t)
      go s (err e, t) h = h

  pub Always-from_option :
      (o : Option A) (n : Exec S B) (f : A → Exec S B)
      → Always Q n
      → ((a : A) → Always Q (f a))
      → Always Q (from_option o n f)
  unfolding from_option
  Always-from_option none n f hn hf = hn
  Always-from_option (some a) n f hn hf = hf a

pub ruleset always_rules = (
  Always-pure, Always-raise, Always-gets, Always-choose, Always-handle, Always-bind,
  Always-from_option,
)
