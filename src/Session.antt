-- ===== src/Session.antt =====
-- A database with tables of any shape, and what becomes of the next requests to it.
pub mod Effects
use grid_runner.Prelude.{List, [], ◌∷◌}
use grid_runner.Fallible.{Result, ok, err, unavailable}
use grid_runner.Exec.{Exec, pure}
use grid_runner.Store.{Outcome, done, refused, lost}

pub record Session (T : Type 0) : Type 0 where
  pub tables : T
  pub outcomes : List Outcome

-- A statement, as it changes the tables.
abbrev pub Sql : Type 0 → Type 0 → Type 0
Sql T A = T → Result A × T

module _ {T A : Type 0} where
  abbrev perform : List Outcome → Result A × T → Result A × Session T
  perform rest (r, t) = (r, record { tables = t; outcomes = rest })

  abbrev lose : List Outcome → Result A × T → Result A × Session T
  lose rest (r, t) = (err unavailable, record { tables = t; outcomes = rest })

  unfoldable pub answer : List Outcome → Sql T A → T → Result A × Session T
  answer [] f t = perform [] (f t)
  answer (done ∷ rest) f t = perform rest (f t)
  answer (refused ∷ rest) f t = (err unavailable, record { tables = t; outcomes = rest })
  answer (lost ∷ rest) f t = lose rest (f t)

  -- One statement, which is a request of its own.
  unfoldable pub statement : Sql T A → Exec (Session T) A
  statement f s = answer s.outcomes f s.tables

  -- COMMIT of the tables of `s`, in a transaction that began with the tables `start`.
  unfoldable pub commit : List Outcome → A → T → T → Result A × Session T
  commit [] a start t = (ok a, record { tables = t; outcomes = [] })
  commit (done ∷ rest) a start t = (ok a, record { tables = t; outcomes = rest })
  commit (refused ∷ rest) a start t = (err unavailable, record { tables = start; outcomes = rest })
  commit (lost ∷ rest) a start t = (err unavailable, record { tables = t; outcomes = rest })

  unfoldable pub finish : T → Result A × Session T → Result A × Session T
  finish start (ok a, s) = commit s.outcomes a start s.tables
  finish start (err e, s) = (err e, record { tables = start; outcomes = s.outcomes })

module _ {T A : Type 0} where
  abbrev begun : Exec (Session T) A → Result (Unit {0}) × Session T → Result A × Session T
  begun m (ok _, s) = finish s.tables (m s)
  begun m (err e, s) = (err e, s)

  -- `Begin`, the statements and `Commit`, with the deferred `Rollback`.
  unfoldable pub transaction : Exec (Session T) A → Exec (Session T) A
  transaction m s = begun m (statement (λ t. (ok tt, t)) s)
