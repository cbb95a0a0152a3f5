-- ===== src/Queue/Keys.antt =====
-- The keys of the lists never collide.
use Prim.Native.String.{◌++◌ as ◌<>◌, slice}
use text.Mathlib.TextLemmas.{append_cancel_left, append_cancel_right}
use text.Mathlib.TextPositions.{slice-append_left}
use grid_runner.Prelude.{
  ◌≡◌, refl, sym, ap, ◌∙◌, inl, inr, String, arith, false, ◌==◌, eq_iff, Bool-cases,
}
use grid_runner.Queue.{runner_key, pending_key, inflight_key}

-- Two runners that share a mailbox key are one runner, so no runner reads another's mailbox.
pub runner_key-injective : (a b : String) → runner_key a ≡ runner_key b → a ≡ b
unfolding runner_key
runner_key-injective a b e =
    append_cancel_right a b ":mailbox" (append_cancel_left "forgerun:runner:" _ _ e)

abbrev prefix : String
prefix = "forgerun:runner:"

-- A key with another beginning is no mailbox.
runner_key-ne : (a k : String) → (slice k 0 16 == prefix) ≡ false → (runner_key a == k) ≡ false
unfolding runner_key
runner_key-ne a k other = elim (Bool-cases (runner_key a == k)) [
  | inl same ↦
      let e : runner_key a ≡ k = (eq_iff _ _).0 same in
      let begins : slice k 0 16 ≡ prefix =
        ap (λ s. slice s 0 16) (sym e) ∙ slice-append_left prefix (a <> ":mailbox") in
      absurd (ground (arith, (eq_iff (slice k 0 16) prefix).1 begins))
  | inr e ↦ e
]

pub runner_key-ne-pending : (a : String) → (runner_key a == pending_key) ≡ false
runner_key-ne-pending a = runner_key-ne a pending_key refl

pub runner_key-ne-inflight : (a : String) → (runner_key a == inflight_key) ≡ false
runner_key-ne-inflight a = runner_key-ne a inflight_key refl
