-- ===== src/Store/Grown.antt =====
-- A table later in time: its old rows, each changed as `T` says, and behind them new rows.
use mathlib.Core.Path.{subst}
use grid_runner.Prelude.{
  ◌≡◌, refl, Bool-cases, inl, inr, Bool, true, false, some, List, [], ◌∷◌, ◌++◌, arith,
  if◌then◌else◌,
}
use grid_runner.Store.Rows.{find_row, update_rows, All}

module _ {A : Type 0} where
  abbrev pub Grown : (A → A → Type 0) → (A → Type 0) → List A → List A → Type 0
  Grown T N [] ys = All N ys
  Grown T N (x ∷ xs) [] = ⊥
  Grown T N (x ∷ xs) (y ∷ ys) = T x y × Grown T N xs ys

  module _ (T : A → A → Type 0) (N : A → Type 0) where
    pub Grown-refl : ((x : A) → T x x) → (xs : List A) → Grown T N xs xs
    Grown-refl same [] = tt
    Grown-refl same (x ∷ xs) = (same x, Grown-refl same xs)

    pub Grown-append : ((x : A) → T x x) → (xs ys : List A) → All N ys → Grown T N xs (xs ++ ys)
    Grown-append same [] ys new = new
    Grown-append same (x ∷ xs) ys new = (same x, Grown-append same xs ys new)

    pub Grown-update_rows :
        ((x : A) → T x x)
        → (p : A → Bool) (f : A → A) → ((x : A) → p x ≡ true → T x (f x))
        → (xs : List A) → Grown T N xs (update_rows p f xs)
    unfolding update_rows
    Grown-update_rows same p f step [] = tt
    Grown-update_rows same p f step (x ∷ xs) =
        (go (p x) (step x), Grown-update_rows same p f step xs)
      where
        go : (b : Bool) → (b ≡ true → T x (f x)) → T x (if b then f x else x)
        go true h = h refl
        go false h = same x

    All-Grown :
        ((x y : A) → N x → T x y → N y) → (xs ys : List A) → All N xs → Grown T N xs ys → All N ys
    All-Grown keep [] ys h g = g
    All-Grown keep (x ∷ xs) [] h g = absurd g
    All-Grown keep (x ∷ xs) (y ∷ ys) h g = (keep x y h.0 g.0, All-Grown keep xs ys h.1 g.1)

    pub Grown-trans :
        ((x y z : A) → T x y → T y z → T x z)
        → ((x y : A) → N x → T x y → N y)
        → (xs ys zs : List A) → Grown T N xs ys
        → Grown T N ys zs
        → Grown T N xs zs
    Grown-trans join keep [] ys zs g h = All-Grown keep ys zs g h
    Grown-trans join keep (x ∷ xs) [] zs g h = absurd g
    Grown-trans join keep (x ∷ xs) (y ∷ ys) [] g h = absurd h
    Grown-trans join keep (x ∷ xs) (y ∷ ys) (z ∷ zs) g h =
        (join x y z g.0 h.0, Grown-trans join keep xs ys zs g.1 h.1)

    -- A predicate that new rows have and that changes keep holds of every row later.
    pub Grown-All :
        (P : A → Type 0)
        → ((x y : A) → T x y → P x → P y)
        → ((x : A) → N x → P x)
        → (xs ys : List A) → Grown T N xs ys
        → All P xs
        → All P ys
    Grown-All P keep new [] [] g h = tt
    Grown-All P keep new [] (y ∷ ys) g h = (new y g.0, Grown-All P keep new [] ys g.1 tt)
    Grown-All P keep new (x ∷ xs) [] g h = absurd g
    Grown-All P keep new (x ∷ xs) (y ∷ ys) g h =
        (keep x y g.0 h.0, Grown-All P keep new xs ys g.1 h.1)

    -- A row that a search finds is found again later, changed as `T` says.
    pub Grown-find_row :
        (q : A → Bool)
        → ((x y : A) → T x y → q y ≡ q x)
        → (xs ys : List A) (x : A) → Grown T N xs ys
        → find_row q xs ≡ some x
        → (y : A) × (find_row q ys ≡ some y) × T x y
    unfolding find_row
    Grown-find_row q same [] ys x g h = absurd (ground arith)
    Grown-find_row q same (x ∷ xs) [] a g h = absurd g
    Grown-find_row q same (x ∷ xs) (y ∷ ys) a g h = elim (Bool-cases (q x)) [
      | inl hit ↦
          let e : x ≡ a = ground arith in
          (y, ground (arith, same x y g.0), subst (λ b. T b y) e g.0)
      | inr miss ↦
          let (z, found, step) = Grown-find_row q same xs ys a g.1 (ground arith) in
          (z, ground (arith, same x y g.0), step)
    ]
