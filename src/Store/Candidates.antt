-- ===== src/Store/Candidates.antt =====
-- internal/store/store.go, IdleRunners and AssignJob, when PostgreSQL answers every request.
use grid_runner.Prelude.{
  ℕ, ◌<◌, ◌≡◌, refl, ap, ◌⊎◌, inl, inr, String, Bool, true, false, ◌&&◌, some, List, [], ◌∷◌, map,
  ltb, lt→ltb, ◌==◌, eq_iff, arith, Bool-cases,
}
use grid_runner.Fallible.{ok, not_idle}
use grid_runner.Exec.{pure, raise, choose, choose_at, ◌>>=◌}
use grid_runner.Models.{JobStatus, queued, job_status_eq, Runner, idle, runner_status_eq}
use grid_runner.Scheduler.Pick.{Among}
use grid_runner.Store.{
  JobRow, RunnerRow, Store, statement, answer, transaction, begun, finish, commit,
}
use grid_runner.Store.Rows.{
  find_row, update_rows, count_rows, select_rows, order_rows, insert_ordered,
}
use grid_runner.Store.Statements.{job_has_id, runner_has_id, get_job, update_runners}
use grid_runner.Store.Jobs.{assign_job, assign_statements, assign_row, still, take_row, occupy}
use grid_runner.Store.Runners.{idle_runners, is_live, assigned_before}

both : (a b : Bool) → (a && b) ≡ true → (a ≡ true) × (b ≡ true)
both true b h = (refl, h)
both false b h = absurd (cc)

-- `x` is a row of the table.
abbrev pub Has : {A : Type 0} → A → List A → Type 0
Has x [] = ⊥
Has x (y ∷ ys) = (y ≡ x) ⊎ Has x ys

module _ {A : Type 0} where
  Has-insert_ordered :
      (before : A → A → Bool) (x y : A) (xs : List A)
      → Has x (insert_ordered before y xs)
      → (y ≡ x) ⊎ Has x xs
  unfolding insert_ordered
  Has-insert_ordered before x y [] h = h
  Has-insert_ordered before x y (z ∷ zs) h = elim (Bool-cases (before y z)) [
    | inl e ↦ rw e at h
    | inr e ↦ elim (rw e at h) [
      | inl here ↦ inr (inl here)
      | inr there ↦ elim (Has-insert_ordered before x y zs there) [
        | inl here ↦ inl here
        | inr later ↦ inr (inr later)
      ]
    ]
  ]

  Has-order_rows :
      (before : A → A → Bool) (x : A) (xs : List A) → Has x (order_rows before xs) → Has x xs
  unfolding order_rows
  Has-order_rows before x [] h = h
  Has-order_rows before x (y ∷ ys) h =
      elim (Has-insert_ordered before x y (order_rows before ys) h) [
        | inl here ↦ inl here
        | inr there ↦ inr (Has-order_rows before x ys there)
      ]

  Has-select_rows :
      (p : A → Bool) (x : A) (xs : List A) → Has x (select_rows p xs) → Has x xs × (p x ≡ true)
  unfolding select_rows
  Has-select_rows p x [] h = absurd h
  Has-select_rows p x (y ∷ ys) h = elim (Bool-cases (p y)) [
    | inl e ↦ elim (rw e at h) [
      | inl here ↦ (inl here, rw (← here) e)
      | inr there ↦ let (found, passes) = Has-select_rows p x ys there in (inr found, passes)
    ]
    | inr e ↦ let (found, passes) = Has-select_rows p x ys (rw e at h) in (inr found, passes)
  ]

  pub count_rows-pos :
      (p : A → Bool) (x : A) (xs : List A) → Has x xs → p x ≡ true → 0 < count_rows p xs
  unfolding count_rows
  count_rows-pos p x [] h passes = absurd h
  count_rows-pos p x (y ∷ ys) (inl here) passes =
      let first : p y ≡ true = rw here passes in rw first (omega arith)
  count_rows-pos p x (y ∷ ys) (inr there) passes =
      let later = count_rows-pos p x ys there passes in
      elim (Bool-cases (p y)) [ inl e ↦ rw e (omega arith) | inr e ↦ rw e later ]

  pub Has-find_row :
      (p : A → Bool) (x : A) (xs : List A) → find_row p xs ≡ some x → Has x xs × (p x ≡ true)
  unfolding find_row
  Has-find_row p x [] h = absurd (cc)
  Has-find_row p x (y ∷ ys) h = elim (Bool-cases (p y)) [
    | inl e ↦
        let found : some y ≡ some x = rw e at h in
        let same : y ≡ x = cc in (inl same, rw (← same) e)
    | inr e ↦ let (found, passes) = Has-find_row p x ys (rw e at h) in (inr found, passes)
  ]

Among-rows :
    (r : Runner) (xs : List RunnerRow)
    → Among r (map (λ (x : RunnerRow). x.runner) xs)
    → (x : RunnerRow) × Has x xs × (x.runner ≡ r)
Among-rows r [] h = absurd h
Among-rows r (x ∷ xs) (inl here) = (x, inl refl, here)
Among-rows r (x ∷ xs) (inr there) =
    let (y, found, same) = Among-rows r xs there in (y, inr found, same)

abbrev pub calm_store : List JobRow → List RunnerRow → ℕ → Store
calm_store jobs runners now = record { jobs = jobs; runners = runners; now = now; outcomes = [] }

-- What `IdleRunners` answers.
abbrev pub candidates : ℕ → List RunnerRow → ℕ → List Runner
candidates timeout runners now =
    map (λ (r : RunnerRow). r.runner)
      (order_rows (λ a b. assigned_before a.last_assigned b.last_assigned)
        (select_rows (λ r. runner_status_eq r.status idle && is_live now timeout r) runners))

abbrev pub is_free : String → RunnerRow → Bool
is_free runner_id r = runner_has_id runner_id r && runner_status_eq r.status idle

candidate_is_free :
    (timeout now : ℕ) (runners : List RunnerRow) (r : Runner)
    → Among r (candidates timeout runners now)
    → (0 < count_rows (is_free r.id) runners) × (0 < count_rows (runner_has_id r.id) runners)
candidate_is_free timeout now runners r among =
    let (x, ordered, same) = Among-rows r _ among in
    let (found, passes) = Has-select_rows _ x runners (Has-order_rows _ x _ ordered) in
    let named : (x.id == r.id) ≡ true = (eq_iff x.id r.id).1 (ap (λ (y : Runner). y.id) same) in
    let (is_idle, live) = both (runner_status_eq x.status idle) _ passes in
    (
      count_rows-pos (is_free r.id) x runners found (rw named is_idle),
      count_rows-pos (runner_has_id r.id) x runners found named,
    )

pub queued_eq : (s : JobStatus) → s ≡ queued → job_status_eq s queued ≡ true
queued_eq s e = rw e refl

still_there :
    (id : String) (jobs : List JobRow) (row : JobRow)
    → find_row (job_has_id id) jobs ≡ some row
    → row.status ≡ queued
    → 0 < count_rows (still id queued) jobs
still_there id jobs row found waits =
    let (there, named) = Has-find_row (job_has_id id) row jobs found in
    count_rows-pos (still id queued) row jobs there (rw named (queued_eq row.status waits))

-- The tables after an assignment.
abbrev pub assigned_store : String → String → List JobRow → List RunnerRow → ℕ → Store
assigned_store id runner_id jobs runners now =
    calm_store (update_rows (still id queued) (take_row runner_id) jobs)
      (update_rows (is_free runner_id) (occupy id runner_id now) runners) now

pub idle_runners-calm :
    (timeout : ℕ) (jobs : List JobRow) (runners : List RunnerRow) (now : ℕ)
    → idle_runners timeout (calm_store jobs runners now)
      ≡ (ok (candidates timeout runners now), calm_store jobs runners now)
unfolding idle_runners statement answer
idle_runners-calm timeout jobs runners now = refl

pub get_job-calm :
    (id : String) (jobs : List JobRow) (runners : List RunnerRow) (now : ℕ) (row : JobRow)
    → find_row (job_has_id id) jobs ≡ some row
    → get_job id (calm_store jobs runners now) ≡ (ok row.job, calm_store jobs runners now)
unfolding get_job statement answer
get_job-calm id jobs runners now row found = rw found refl

-- The store between the two statements.
abbrev taken_store : String → String → List JobRow → List RunnerRow → ℕ → Store
taken_store id runner_id jobs runners now =
    calm_store (update_rows (still id queued) (take_row runner_id) jobs) runners now

assign_row-calm :
    (id runner_id : String) (jobs : List JobRow) (runners : List RunnerRow) (now : ℕ)
    → ltb 0 (count_rows (still id queued) jobs) ≡ true
    → ltb 0 (count_rows (runner_has_id runner_id) runners) ≡ true
    → statement (assign_row id runner_id queued) (calm_store jobs runners now)
      ≡ (ok (count_rows (still id queued) jobs), taken_store id runner_id jobs runners now)
unfolding assign_row statement answer choose_at
assign_row-calm id runner_id jobs runners now there named = rw (there, named) refl

occupy-calm :
    (id runner_id : String) (jobs : List JobRow) (runners : List RunnerRow) (now : ℕ)
    → ltb 0 (count_rows (is_free runner_id) runners) ≡ true
    → (update_runners (is_free runner_id) (occupy id runner_id) >>= λ taken.
          choose (ltb 0 taken) (pure tt) (raise not_idle))
        (taken_store id runner_id jobs runners now)
      ≡ (ok tt, assigned_store id runner_id jobs runners now)
unfolding update_runners statement answer choose pure ◌>>=◌
occupy-calm id runner_id jobs runners now free = rw free refl

assign_statements-calm :
    (id runner_id : String) (jobs : List JobRow) (runners : List RunnerRow) (now : ℕ)
    → ltb 0 (count_rows (still id queued) jobs) ≡ true
    → ltb 0 (count_rows (runner_has_id runner_id) runners) ≡ true
    → ltb 0 (count_rows (is_free runner_id) runners) ≡ true
    → assign_statements id runner_id queued (calm_store jobs runners now)
      ≡ (ok tt, assigned_store id runner_id jobs runners now)
unfolding assign_statements choose ◌>>=◌
assign_statements-calm id runner_id jobs runners now there named free =
    rw (assign_row-calm id runner_id jobs runners now there named, there)
      (occupy-calm id runner_id jobs runners now free)

pub assign_job-calm :
    (id : String) (timeout : ℕ) (jobs : List JobRow) (runners : List RunnerRow) (now : ℕ)
    (row : JobRow) (r : Runner)
    → find_row (job_has_id id) jobs ≡ some row
    → row.status ≡ queued
    → Among r (candidates timeout runners now)
    → assign_job id r.id (calm_store jobs runners now)
      ≡ (ok tt, assigned_store id r.id jobs runners now)
unfolding assign_job transaction begun finish commit statement answer choose pure ◌>>=◌
assign_job-calm id timeout jobs runners now row r found waits among =
    let (free, named) = candidate_is_free timeout now runners r among in
    rw
      (
        get_job-calm id jobs runners now row found,
        waits,
        assign_statements-calm id r.id jobs runners now
            (lt→ltb _ _ (still_there id jobs row found waits)) (lt→ltb _ _ named) (lt→ltb _ _ free),
      )
      refl
