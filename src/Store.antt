-- ===== src/Store.antt =====
-- internal/store/store.go over the tables of migrations/: the rows, the statements, and the answers
-- of the database to each request.
pub mod Rows
pub mod Columns
pub mod Statements
pub mod Creation
pub mod Jobs
pub mod Runners
pub mod Grown
pub mod Steps
pub mod Keys
pub mod Lawful
pub mod History
pub mod LogAppends
pub mod Transactions
pub mod Reaping
pub mod Assignment
pub mod Candidates
pub mod Changes
pub mod Waiting
use grid_runner.Prelude.{ℕ, String, Bool, true, false, List, [], ◌∷◌, ◌++◌, ◌+◌, ltb, if◌then◌else◌}
use grid_runner.Fallible.{Err, Result, ok, err, unavailable}
use grid_runner.Exec.{Exec, pure, raise, ◌>>=◌}
use grid_runner.Models.{Job, Runner}

-- A row of `jobs`: the columns of `jobCols` as the Go record that they are scanned into, and the
-- two that only the log statements read.
pub record JobRow : Type 0 where
  pub job : Job
  pub open job use *
  pub logs : List ℕ
  pub log_seq : ℕ

pub record RunnerRow : Type 0 where
  pub runner : Runner
  pub open runner use *
  pub token_hash : String

-- How one request to the database goes: it is done and answered, it is refused and nothing has
-- happened, or it is done and the answer is lost.
pub data Outcome : Type 0 where
  done refused lost : Outcome

-- `outcomes` holds what will become of the next requests; past its end, every request is done.
-- `now` is the clock of the database, in microseconds.
pub record Store : Type 0 where
  pub jobs : List JobRow
  pub runners : List RunnerRow
  pub now : ℕ
  pub outcomes : List Outcome

module _ {A : Type 0} where
  unfoldable pub answer : List Outcome → Exec Store A → Exec Store A
  answer [] m s = m s
  answer (done ∷ rest) m s = m (record s { outcomes = rest })
  answer (refused ∷ rest) m s = (err unavailable, record s { outcomes = rest })
  answer (lost ∷ rest) m s = (err unavailable, (m (record s { outcomes = rest })).1)

  -- One statement, which is a request of its own.
  unfoldable pub statement : Exec Store A → Exec Store A
  statement m s = answer s.outcomes m s

module _ {A : Type 0} where
  -- COMMIT, from the state `s` inside the transaction, which began at `start`.
  unfoldable pub commit : List Outcome → A → Store → Exec Store A
  commit [] a start s = (ok a, s)
  commit (done ∷ rest) a start s = (ok a, record s { outcomes = rest })
  commit (refused ∷ rest) a start s = (err unavailable, record start { outcomes = rest })
  commit (lost ∷ rest) a start s = (err unavailable, record s { outcomes = rest })

  unfoldable pub finish : Result A → Store → Exec Store A
  finish (ok a) start s = commit s.outcomes a start s
  finish (err e) start s = (err e, record start { outcomes = s.outcomes })

  unfoldable pub begun : Result (Unit {0}) → Exec Store A → Exec Store A
  begun (ok _) m start = let (r, s) = m start in finish r start s
  begun (err e) m start = (err e, start)

  -- `Begin`, the statements, and `Commit`; the deferred `Rollback` undoes all of them unless the
  -- commit is done.
  unfoldable pub transaction : Exec Store A → Exec Store A
  transaction m s = let (r, start) = statement (pure tt) s in begun r m start
