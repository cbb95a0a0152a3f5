-- ===== src/Store/Lawful.antt =====
-- Every method of the store, however its requests end, changes rows only as Store/Steps says.
pub mod JobMethods
pub mod Assigning
pub mod RunnerMethods
use grid_runner.Prelude.{ℕ, ◌≡◌, Bool, true, List, [], ◌∷◌}
use grid_runner.Fallible.{Err, Result, ok, err}
use grid_runner.Exec.{Exec, pure, raise}
use grid_runner.Exec.Always.{IsPreorder, Always, Always-pure}
use grid_runner.Store.{
  JobRow, RunnerRow, Store, Outcome, done, refused, lost, answer, statement, commit, finish, begun,
  transaction,
}
use grid_runner.Store.Grown.{Grown, Grown-refl, Grown-trans, Grown-update_rows}
use grid_runner.Store.Steps.{
  IsSoundJob, IsSoundRunner, JobStep, JobStep-refl, JobStep-trans, RunnerStep, RunnerStep-refl,
  RunnerStep-trans,
}
use grid_runner.Store.Keys.{HasKeys, HasKeys-update_rows}
use grid_runner.Store.Statements.{update_jobs, update_runners}

abbrev pub FreshJob : JobRow → Type 0
FreshJob r = IsSoundJob r.job

abbrev pub FreshRunner : RunnerRow → Type 0
FreshRunner r = IsSoundRunner r.runner

pub record Lawful (s t : Store) : Type 0 where
  pub jobs : Grown JobStep FreshJob s.jobs t.jobs
  pub runners : Grown RunnerStep FreshRunner s.runners t.runners
  pub keys : HasKeys s.jobs → HasKeys t.jobs

jobs_stay : (rows : List JobRow) → Grown JobStep FreshJob rows rows
jobs_stay = Grown-refl JobStep FreshJob JobStep-refl

runners_stay : (rows : List RunnerRow) → Grown RunnerStep FreshRunner rows rows
runners_stay = Grown-refl RunnerStep FreshRunner RunnerStep-refl

pub Lawful-preorder : IsPreorder Lawful
Lawful-preorder = record {
  stays = λ s. record { jobs = jobs_stay s.jobs; runners = runners_stay s.runners; keys = λ h. h };
  joins = λ s t u p q. record {
    jobs =
        Grown-trans JobStep FreshJob JobStep-trans (λ x y n st. st.sound n) s.jobs t.jobs u.jobs
          p.jobs q.jobs;
    runners =
        Grown-trans RunnerStep FreshRunner RunnerStep-trans (λ x y n st. st.sound n) s.runners
          t.runners u.runners p.runners q.runners;
    keys = λ h. q.keys (p.keys h);
  };
}

-- The answers that are used up are no part of the tables.
Lawful-outcomes :
    {s t : Store} (os : List Outcome) → Lawful s t → Lawful s (record t { outcomes = os })
Lawful-outcomes os h = record { jobs = h.jobs; runners = h.runners; keys = h.keys }

module _ {A : Type 0} where
  -- A request that is not answered has done what it does, or nothing.
  pub Always-statement : (m : Exec Store A) → Always Lawful m → Always Lawful (statement m)
  unfolding statement answer
  Always-statement m h = record { at = λ s. go s.outcomes s }
    where
      from : (os : List Outcome) (s : Store) → Lawful s (m (record s { outcomes = os })).1
      from os s =
          let p = h.at (record s { outcomes = os }) in
          record { jobs = p.jobs; runners = p.runners; keys = p.keys }

      go : (os : List Outcome) (s : Store) → Lawful s (answer os m s).1
      go [] s = h.at s
      go (done ∷ os) s = from os s
      go (refused ∷ os) s = Lawful-outcomes os (Lawful-preorder.stays s)
      go (lost ∷ os) s = from os s

  -- A SELECT changes no row.
  pub Always-select : (f : Store → Result A) → Always Lawful (statement (λ s. (f s, s)))
  Always-select f = Always-statement _ (record { at = Lawful-preorder.stays })

  commit-Lawful :
      (os : List Outcome) (a : A) (start s : Store)
      → Lawful start s
      → Lawful start (commit os a start s).1
  unfolding commit
  commit-Lawful [] a start s h = h
  commit-Lawful (done ∷ os) a start s h = Lawful-outcomes os h
  commit-Lawful (refused ∷ os) a start s h = Lawful-outcomes os (Lawful-preorder.stays start)
  commit-Lawful (lost ∷ os) a start s h = Lawful-outcomes os h

  finish-Lawful :
      (r : Result A) (start s : Store) → Lawful start s → Lawful start (finish r start s).1
  unfolding finish
  finish-Lawful (ok a) start s h = commit-Lawful s.outcomes a start s h
  finish-Lawful (err e) start s h = Lawful-outcomes s.outcomes (Lawful-preorder.stays start)

  begun-Lawful :
      (r : Result (Unit {0})) (m : Exec Store A) (start : Store)
      → Always Lawful m
      → Lawful start (begun r m start).1
  unfolding begun
  begun-Lawful (ok _) m start h = let (r, s) = m start in finish-Lawful r start s (h.at start)
  begun-Lawful (err e) m start h = Lawful-preorder.stays start

module _ {A : Type 0} where
  pub Always-transaction : (m : Exec Store A) → Always Lawful m → Always Lawful (transaction m)
  unfolding transaction
  Always-transaction m h = record {
    at = λ s.
        let (r, start) = statement (pure tt) s in
        Lawful-preorder.joins s start (begun r m start).1
          ((Always-statement (pure tt) (Always-pure Lawful-preorder tt)).at s)
          (begun-Lawful r m start h);
  }

-- An UPDATE is lawful if it is so of each row that its WHERE lets through.
pub Always-update_jobs :
    (test : JobRow → Bool) (set : ℕ → JobRow → JobRow)
    → ((now : ℕ) (r : JobRow) → test r ≡ true → JobStep r (set now r))
    → Always Lawful (update_jobs test set)
unfolding update_jobs
Always-update_jobs test set step = Always-statement _ (record {
  at = λ s. record {
    jobs = Grown-update_rows JobStep FreshJob JobStep-refl test (set s.now) (step s.now) s.jobs;
    runners = runners_stay s.runners;
    keys = HasKeys-update_rows test (set s.now) (step s.now) s.jobs;
  };
})

pub Always-update_runners :
    (test : RunnerRow → Bool) (set : ℕ → RunnerRow → RunnerRow)
    → ((now : ℕ) (r : RunnerRow) → test r ≡ true → RunnerStep r (set now r))
    → Always Lawful (update_runners test set)
unfolding update_runners
Always-update_runners test set step = Always-statement _ (record {
  at = λ s. record {
    jobs = jobs_stay s.jobs;
    runners =
        Grown-update_rows RunnerStep FreshRunner RunnerStep-refl test (set s.now) (step s.now)
          s.runners;
    keys = λ h. h;
  };
})
