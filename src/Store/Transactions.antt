-- ===== src/Store/Transactions.antt =====
-- internal/store/store.go: what is left of a transaction, and of a chain of statements, however
-- the database answers.
use grid_runner.Prelude.{◌≡◌, refl, ap, List, [], ◌∷◌, ◌⊎◌, inl, inr}
use grid_runner.Fallible.{Result, ok, err}
use grid_runner.Exec.{Exec, pure, ◌>>=◌}
use grid_runner.Store.{
  Store, Outcome, done, refused, lost, statement, answer, transaction, begun, finish, commit,
}

-- The tables of `t` are those of `s`.
abbrev pub HasTablesOf : Store → Store → Type 0
HasTablesOf s t = (t.jobs ≡ s.jobs) × (t.runners ≡ s.runners)

abbrev pub rewound : Store → List Outcome → Store
rewound s os = record s { outcomes = os }

module _ {A : Type 0} (m : Exec Store A) where
  commit-cases :
      (os : List Outcome) (a : A) (start t : Store)
      → HasTablesOf start (commit os a start t).1 ⊎ HasTablesOf t (commit os a start t).1
  unfolding commit
  commit-cases [] a start t = inr (refl, refl)
  commit-cases (done ∷ os) a start t = inr (refl, refl)
  commit-cases (refused ∷ os) a start t = inl (refl, refl)
  commit-cases (lost ∷ os) a start t = inr (refl, refl)

  finish-cases :
      (r : Result A) (start t : Store)
      → HasTablesOf start (finish r start t).1
        ⊎ ((a : A) × (r ≡ ok a) × HasTablesOf t (finish r start t).1)
  unfolding finish
  finish-cases (ok a) start t = elim (commit-cases t.outcomes a start t) [
    | inl undone ↦ inl undone
    | inr kept ↦ inr (a, refl, kept)
  ]
  finish-cases (err e) start t = inl (refl, refl)

  abbrev pub HasDone : Store → Store → Type 0
  HasDone s t =
      (os : List Outcome) × (a : A) × ((m (rewound s os)).0 ≡ ok a)
      × HasTablesOf (m (rewound s os)).1 t

  -- A transaction leaves the tables as they were, or as its statements make them without an error.
  transaction-rewound :
      (s : Store) (os : List Outcome)
      → HasTablesOf s (transaction m (rewound s os)).1 ⊎ HasDone s (transaction m (rewound s os)).1
  unfolding transaction begun statement answer pure
  transaction-rewound s [] =
      elim (finish-cases (m (rewound s [])).0 (rewound s []) (m (rewound s [])).1) [
        | inl kept ↦ inl kept
        | inr (a, good, tables) ↦ inr ([], a, good, tables)
      ]
  transaction-rewound s (done ∷ os) =
      elim (finish-cases (m (rewound s os)).0 (rewound s os) (m (rewound s os)).1) [
        | inl kept ↦ inl kept
        | inr (a, good, tables) ↦ inr (os, a, good, tables)
      ]
  transaction-rewound s (refused ∷ os) = inl (refl, refl)
  transaction-rewound s (lost ∷ os) = inl (refl, refl)

  pub transaction-cases :
      (s : Store) → HasTablesOf s (transaction m s).1 ⊎ HasDone s (transaction m s).1
  transaction-cases s = transaction-rewound s s.outcomes

-- A statement that answers has been done, on the same tables.
pub statement-ok :
    {A : Type 0} (m : Exec Store A) (s : Store) (os : List Outcome) (a : A)
    → (statement m (rewound s os)).0 ≡ ok a
    → (rest : List Outcome) × (statement m (rewound s os) ≡ m (rewound s rest))
unfolding statement answer
statement-ok m s [] a h = ([], refl)
statement-ok m s (done ∷ os) a h = (os, refl)
statement-ok m s (refused ∷ os) a h = absurd (cc)
statement-ok m s (lost ∷ os) a h = absurd (cc)

pub bind-ok :
    {A B : Type 0} (m : Exec Store A) (f : A → Exec Store B) (s : Store) (b : B)
    → ((m >>= f) s).0 ≡ ok b
    → (a : A) × ((m s).0 ≡ ok a) × ((m >>= f) s ≡ f a (m s).1)
unfolding ◌>>=◌
bind-ok m f s b h = go (m s).0 (m s).1 refl
  where
    go :
        (r : Result _) (t : Store)
        → (m s ≡ (r, t))
        → (a : _) × ((m s).0 ≡ ok a) × ((m >>= f) s ≡ f a (m s).1)
    go (ok a) t e = (a, ap (λ p. p.0) e, rw e refl)
    go (err x) t e = absurd (let bad : err x ≡ ok b = rw e at h in cc)
