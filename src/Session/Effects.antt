-- ===== src/Session/Effects.antt =====
-- What requests leave of the tables, however they are answered.
use grid_runner.Prelude.{◌≡◌, refl, ap, sym, List, [], ◌∷◌, ◌⊎◌, inl, inr}
use grid_runner.Fallible.{Result, ok, err}
use grid_runner.Exec.{Exec, ◌>>=◌}
use grid_runner.Store.{Outcome, done, refused, lost}
use grid_runner.Session.{Session, Sql, answer, statement, commit, finish, transaction}

abbrev pub session : {T : Type 0} → T → List Outcome → Session T
session t os = record { tables = t; outcomes = os }

module _ {T A : Type 0} where
  answer-tables :
      (os : List Outcome) (f : Sql T A) (t : T)
      → ((answer os f t).1.tables ≡ t) ⊎ ((answer os f t).1.tables ≡ (f t).1)
  unfolding answer
  answer-tables [] f t = inr refl
  answer-tables (done ∷ rest) f t = inr refl
  answer-tables (refused ∷ rest) f t = inl refl
  answer-tables (lost ∷ rest) f t = inr refl

  -- A statement is done or not.
  pub statement-tables :
      (f : Sql T A) (s : Session T)
      → ((statement f s).1.tables ≡ s.tables) ⊎ ((statement f s).1.tables ≡ (f s.tables).1)
  unfolding statement
  statement-tables f s = answer-tables s.outcomes f s.tables

  answer-ok :
      (os : List Outcome) (f : Sql T A) (t : T) (a : A)
      → (answer os f t).0 ≡ ok a
      → ((f t).0 ≡ ok a) × ((answer os f t).1.tables ≡ (f t).1)
  unfolding answer
  answer-ok [] f t a h = (h, refl)
  answer-ok (done ∷ rest) f t a h = (h, refl)
  answer-ok (refused ∷ rest) f t a h = absurd (cc)
  answer-ok (lost ∷ rest) f t a h = absurd (cc)

  -- A statement that answers with a value has been done.
  pub statement-ok :
      (f : Sql T A) (s : Session T) (a : A)
      → (statement f s).0 ≡ ok a
      → ((f s.tables).0 ≡ ok a) × ((statement f s).1.tables ≡ (f s.tables).1)
  unfolding statement
  statement-ok f s a h = answer-ok s.outcomes f s.tables a h

  commit-tables :
      (os : List Outcome) (a : A) (start t : T)
      → ((commit os a start t).1.tables ≡ start) ⊎ ((commit os a start t).1.tables ≡ t)
  unfolding commit
  commit-tables [] a start t = inr refl
  commit-tables (done ∷ rest) a start t = inr refl
  commit-tables (refused ∷ rest) a start t = inl refl
  commit-tables (lost ∷ rest) a start t = inr refl

  commit-ok :
      (os : List Outcome) (a b : A) (start t : T)
      → (commit os a start t).0 ≡ ok b
      → (commit os a start t).1.tables ≡ t
  unfolding commit
  commit-ok [] a b start t h = refl
  commit-ok (done ∷ rest) a b start t h = refl
  commit-ok (refused ∷ rest) a b start t h = absurd (cc)
  commit-ok (lost ∷ rest) a b start t h = absurd (cc)

  -- The statements of `m` gave no error on the tables `t`, and left the tables `u`.
  abbrev pub Went : Exec (Session T) A → T → T → Type 0
  Went m t u =
      (os : List Outcome) × (a : A) × ((m (session t os)).0 ≡ ok a)
      × ((m (session t os)).1.tables ≡ u)

  finish-tables :
      (start : T) (r : Result A) (s : Session T)
      → ((finish start (r, s)).1.tables ≡ start)
        ⊎ ((a : A) × (r ≡ ok a) × ((finish start (r, s)).1.tables ≡ s.tables))
  unfolding finish
  finish-tables start (ok a) s = elim (commit-tables s.outcomes a start s.tables) [
    | inl back ↦ inl back
    | inr kept ↦ inr (a, refl, kept)
  ]
  finish-tables start (err e) s = inl refl

  finish-ok :
      (start : T) (r : Result A) (s : Session T) (b : A)
      → (finish start (r, s)).0 ≡ ok b
      → (a : A) × (r ≡ ok a) × ((finish start (r, s)).1.tables ≡ s.tables)
  unfolding finish
  finish-ok start (ok a) s b h = (a, refl, commit-ok s.outcomes a b start s.tables h)
  finish-ok start (err e) s b h = absurd (cc)

  transaction-Went :
      (m : Exec (Session T) A) (t : T) (os : List Outcome)
      → ((transaction m (session t os)).1.tables ≡ t)
        ⊎ Went m t (transaction m (session t os)).1.tables
  unfolding transaction statement answer
  transaction-Went m t [] = elim (finish-tables t (m (session t [])).0 (m (session t [])).1) [
    | inl back ↦ inl back
    | inr (a, good, kept) ↦ inr ([], a, good, sym kept)
  ]
  transaction-Went m t (done ∷ os) =
      elim (finish-tables t (m (session t os)).0 (m (session t os)).1) [
        | inl back ↦ inl back
        | inr (a, good, kept) ↦ inr (os, a, good, sym kept)
      ]
  transaction-Went m t (refused ∷ os) = inl refl
  transaction-Went m t (lost ∷ os) = inl refl

  -- A transaction leaves the tables as they were, or as its statements make them without an error.
  pub transaction-tables :
      (m : Exec (Session T) A) (s : Session T)
      → ((transaction m s).1.tables ≡ s.tables) ⊎ Went m s.tables (transaction m s).1.tables
  transaction-tables m s = transaction-Went m s.tables s.outcomes

  Went-ok :
      (m : Exec (Session T) A) (t : T) (os : List Outcome) (b : A)
      → (transaction m (session t os)).0 ≡ ok b
      → Went m t (transaction m (session t os)).1.tables
  unfolding transaction statement answer
  Went-ok m t [] b h =
      let (a, good, kept) = finish-ok t (m (session t [])).0 (m (session t [])).1 b h in
      ([], a, good, sym kept)
  Went-ok m t (done ∷ os) b h =
      let (a, good, kept) = finish-ok t (m (session t os)).0 (m (session t os)).1 b h in
      (os, a, good, sym kept)
  Went-ok m t (refused ∷ os) b h = absurd (cc)
  Went-ok m t (lost ∷ os) b h = absurd (cc)

  -- A transaction that answers with a value has been committed.
  pub transaction-ok :
      (m : Exec (Session T) A) (s : Session T) (b : A)
      → (transaction m s).0 ≡ ok b
      → Went m s.tables (transaction m s).1.tables
  transaction-ok m s b h = Went-ok m s.tables s.outcomes b h

module _ {S A B : Type 0} where
  -- A chain that gives a value: its first part gave one.
  pub bind-value :
      (m : Exec S A) (f : A → Exec S B) (s : S) (b : B)
      → ((m >>= f) s).0 ≡ ok b
      → (a : A) × ((m s).0 ≡ ok a) × ((m >>= f) s ≡ f a (m s).1)
  unfolding ◌>>=◌
  bind-value m f s b h = go (m s).0 (m s).1 refl
    where
      go :
          (r : Result A) (t : S)
          → m s ≡ (r, t)
          → (a : A) × ((m s).0 ≡ ok a) × ((m >>= f) s ≡ f a (m s).1)
      go (ok a) t e = (a, ap (λ p. p.0) e, rw e refl)
      go (err x) t e = absurd (let bad : err x ≡ ok b = rw e at h in cc)
