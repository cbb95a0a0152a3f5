-- ===== src/Store/Rows.antt =====
-- SELECT and UPDATE over the rows of a table.
use mathlib.Core.Option
use mathlib.Core.Path.{subst}
use grid_runner.Prelude.{
  Bool-cases, ℕ, suc, ◌≡◌, refl, inl, inr, Bool, true, false, Option, none, some, List, [], ◌∷◌,
  ◌++◌, arith, if◌then◌else◌,
}

module _ {ℓ} {A : Type ℓ} where
  -- SELECT … WHERE, for a test that at most one row passes.
  unfoldable pub find_row : (A → Bool) → List A → Option A
  find_row p [] = none
  find_row p (x ∷ xs) = if p x then some x else find_row p xs

  -- UPDATE … SET f WHERE p.
  unfoldable pub update_rows : (A → Bool) → (A → A) → List A → List A
  update_rows p f [] = []
  update_rows p f (x ∷ xs) = (if p x then f x else x) ∷ update_rows p f xs

  -- `RowsAffected`.
  unfoldable pub count_rows : (A → Bool) → List A → ℕ
  count_rows p [] = 0
  count_rows p (x ∷ xs) = let rest = count_rows p xs in if p x then suc rest else rest

  unfoldable pub select_rows : (A → Bool) → List A → List A
  select_rows p [] = []
  select_rows p (x ∷ xs) = let rest = select_rows p xs in if p x then x ∷ rest else rest

  -- ORDER BY: `before x y` when the row x may stand before y.
  unfoldable pub insert_ordered : (A → A → Bool) → A → List A → List A
  insert_ordered before x [] = x ∷ []
  insert_ordered before x (y ∷ ys) =
      if before x y then x ∷ y ∷ ys else y ∷ insert_ordered before x ys

  unfoldable pub order_rows : (A → A → Bool) → List A → List A
  unfolding insert_ordered
  order_rows before [] = []
  order_rows before (x ∷ xs) = insert_ordered before x (order_rows before xs)

  -- A row keeps what finds it: a search after an update finds the updated row.
  pub find_row-update_rows :
      (q p : A → Bool) (f : A → A) (xs : List A)
      → ((x : A) → q (f x) ≡ q x)
      → find_row q (update_rows p f xs) ≡ Option.map (λ x. if p x then f x else x) (find_row q xs)
  unfolding find_row update_rows
  find_row-update_rows q p f [] same = refl
  find_row-update_rows q p f (x ∷ xs) same =
      ground (arith, same x, find_row-update_rows q p f xs same)

  pub find_row-append :
      (q : A → Bool) (xs ys : List A) (a : A)
      → find_row q xs ≡ some a
      → find_row q (xs ++ ys) ≡ some a
  unfolding find_row
  find_row-append q [] ys a h = absurd (ground arith)
  find_row-append q (x ∷ xs) ys a h = ground (arith, find_row-append q xs ys a)

  pub find_row-passes : (q : A → Bool) (xs : List A) (a : A) → find_row q xs ≡ some a → q a ≡ true
  unfolding find_row
  find_row-passes q [] a h = absurd (ground arith)
  find_row-passes q (x ∷ xs) a h = ground (arith, find_row-passes q xs a)

  -- Every row of a table satisfies `P`.
  abbrev pub All {κ} : (A → Type κ) → List A → Type κ
  All P [] = Unit
  All P (x ∷ xs) = P x × All P xs

  pub All-update_rows {κ} :
      (P : A → Type κ) (p : A → Bool) (f : A → A) (xs : List A)
      → ((x : A) → p x ≡ true → P x → P (f x))
      → All P xs
      → All P (update_rows p f xs)
  unfolding update_rows
  All-update_rows P p f [] keep h = h
  All-update_rows P p f (x ∷ xs) keep h = (go (p x) refl, All-update_rows P p f xs keep h.1)
    where
      go : (b : Bool) → p x ≡ b → P (if b then f x else x)
      go true e = keep x e h.0
      go false e = h.0

  pub All-append {κ} : (P : A → Type κ) (xs ys : List A) → All P xs → All P ys → All P (xs ++ ys)
  All-append P [] ys h k = k
  All-append P (x ∷ xs) ys h k = (h.0, All-append P xs ys h.1 k)

  pub All-find_row {κ} :
      (P : A → Type κ) (q : A → Bool) (xs : List A) (a : A)
      → All P xs
      → find_row q xs ≡ some a
      → P a
  unfolding find_row
  All-find_row P q [] a h e = absurd (ground arith)
  All-find_row P q (x ∷ xs) a h e = elim (Bool-cases (q x)) [
    | inl hit ↦ let same : x ≡ a = ground arith in subst P same h.0
    | inr miss ↦ All-find_row P q xs a h.1 (rw miss at e)
  ]

  -- No row passes the test exactly when nothing is affected.
  pub find_row-none_of_count :
      (p : A → Bool) (xs : List A) → count_rows p xs ≡ 0 → find_row p xs ≡ none
  unfolding find_row count_rows
  find_row-none_of_count p [] h = refl
  find_row-none_of_count p (x ∷ xs) h = ground (arith, find_row-none_of_count p xs)
