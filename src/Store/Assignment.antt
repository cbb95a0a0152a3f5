-- ===== src/Store/Assignment.antt =====
-- internal/store/store.go, AssignJob: its two UPDATE statements stand in one transaction.
use grid_runner.Prelude.{
  ℕ, ◌<◌, ◌≡◌, refl, ◌∙◌, String, Bool, true, false, not, ◌&&◌, List, [], ◌∷◌, ltb, ltb→lt,
  Bool-cases, ◌⊎◌, inl, inr,
}
use grid_runner.Fallible.{Result, ok, err, invalid_transition, not_idle, foreign_key_violation}
use grid_runner.Exec.{Exec, pure, raise, choose, choose_at, ◌>>=◌}
use grid_runner.Models.{Job, JobStatus, assigned, can_transition_to, idle, runner_status_eq}
use grid_runner.Store.{
  RunnerRow, Store, Outcome, done, refused, lost, statement, answer, transaction,
}
use grid_runner.Store.Rows.{update_rows, count_rows}
use grid_runner.Store.Statements.{get_job, runner_has_id, update_runners}
use grid_runner.Store.Jobs.{assign_job, assign_statements, assign_row, still, take_row, occupy}
use grid_runner.Store.Transactions.{HasTablesOf, rewound, transaction-cases, statement-ok, bind-ok}

abbrev is_free : String → RunnerRow → Bool
is_free runner_id r = runner_has_id runner_id r && runner_status_eq r.status idle

-- The second statement of the transaction and the test of its row count.
abbrev occupy_idle : String → String → Exec Store (Unit {0})
occupy_idle job_id runner_id =
    update_runners (is_free runner_id) (occupy job_id runner_id) >>= λ taken.
    choose (ltb 0 taken) (pure tt) (raise not_idle)

abbrev IsOccupied : String → String → Store → Store → Type 0
IsOccupied job_id runner_id s t =
    (ltb 0 (count_rows (is_free runner_id) s.runners) ≡ true)
    × (t.jobs ≡ s.jobs)
    × (t.runners ≡ update_rows (is_free runner_id) (occupy job_id runner_id s.now) s.runners)

occupy_idle-ok :
    (job_id runner_id : String) (s : Store) (os : List Outcome) (u : Unit {0})
    → (occupy_idle job_id runner_id (rewound s os)).0 ≡ ok u
    → IsOccupied job_id runner_id s (occupy_idle job_id runner_id (rewound s os)).1
unfolding ◌>>=◌ update_runners statement answer choose pure raise
occupy_idle-ok job_id runner_id s [] u h =
    elim (Bool-cases (ltb 0 (count_rows (is_free runner_id) s.runners))) [
      | inl e ↦ (e, rw e refl, rw e refl)
      | inr e ↦ absurd (let bad : err not_idle ≡ ok u = rw e at h in cc)
    ]
occupy_idle-ok job_id runner_id s (done ∷ os) u h =
    elim (Bool-cases (ltb 0 (count_rows (is_free runner_id) s.runners))) [
      | inl e ↦ (e, rw e refl, rw e refl)
      | inr e ↦ absurd (let bad : err not_idle ≡ ok u = rw e at h in cc)
    ]
occupy_idle-ok job_id runner_id s (refused ∷ os) u h = absurd (cc)
occupy_idle-ok job_id runner_id s (lost ∷ os) u h = absurd (cc)

-- Both rows are written: the job points to the runner, and the runner, which was idle, to the job.
pub record IsAssigned (job_id runner_id : String) (status : JobStatus) (s t : Store) : Type 0 where
  pub job_there : 0 < count_rows (still job_id status) s.jobs
  pub runner_idle : 0 < count_rows (is_free runner_id) s.runners
  pub jobs : t.jobs ≡ update_rows (still job_id status) (take_row runner_id) s.jobs
  pub runners :
      t.runners ≡ update_rows (is_free runner_id) (occupy job_id runner_id s.now) s.runners

assign_row-ok :
    (job_id runner_id : String) (status : JobStatus) (s : Store) (n : ℕ)
    → (assign_row job_id runner_id status s).0 ≡ ok n
    → assign_row job_id runner_id status s ≡ (
      ok (count_rows (still job_id status) s.jobs),
      record s { jobs = update_rows (still job_id status) (take_row runner_id) s.jobs },
    )
unfolding assign_row choose_at raise
assign_row-ok job_id runner_id status s n h =
    elim (Bool-cases (
      ltb 0 (count_rows (still job_id status) s.jobs)
      && not (ltb 0 (count_rows (runner_has_id runner_id) s.runners)))) [
        | inl e ↦ absurd (let bad : err foreign_key_violation ≡ ok n = rw e at h in cc)
        | inr e ↦ rw e refl
      ]

abbrev assigned_table : String → String → JobStatus → Store → Store
assigned_table job_id runner_id status s = record s {
  jobs = update_rows (still job_id status) (take_row runner_id) s.jobs;
}

-- The first statement has been done, when both give no error.
first_done :
    (job_id runner_id : String) (status : JobStatus) (s : Store) (os : List Outcome) (u : Unit {0})
    → (assign_statements job_id runner_id status (rewound s os)).0 ≡ ok u
    → (rest : List Outcome) × (statement (assign_row job_id runner_id status) (rewound s os) ≡ (
      ok (count_rows (still job_id status) s.jobs),
      rewound (assigned_table job_id runner_id status s) rest,
    ))
unfolding assign_statements
first_done job_id runner_id status s os u h =
    let (n, wrote, e) = bind-ok _ _ (rewound s os) u h in
    let (rest, now_done) = statement-ok (assign_row job_id runner_id status) s os n wrote in
    (
      rest,
      now_done ∙ assign_row-ok job_id runner_id status (rewound s rest) n (rw now_done at wrote),
    )

assign_statements-ok :
    (job_id runner_id : String) (status : JobStatus) (s : Store) (os : List Outcome) (u : Unit {0})
    → (assign_statements job_id runner_id status (rewound s os)).0 ≡ ok u
    → IsAssigned job_id runner_id status s
        (assign_statements job_id runner_id status (rewound s os)).1
unfolding assign_statements choose raise ◌>>=◌
assign_statements-ok job_id runner_id status s os u h =
    let (rest, row) = first_done job_id runner_id status s os u h in
    let written = assigned_table job_id runner_id status s in
    elim (Bool-cases (ltb 0 (count_rows (still job_id status) s.jobs))) [
      | inl there ↦
          let (free, kept, taken) =
            occupy_idle-ok job_id runner_id written rest u (rw (row, there) at h) in
          rw (row, there)
            (record {
              job_there = ltb→lt _ _ there;
              runner_idle = ltb→lt _ _ free;
              jobs = kept;
              runners = taken;
            })
      | inr gone ↦ absurd (let bad : err invalid_transition ≡ ok u = rw (row, gone) at h in cc)
    ]

abbrev answered : Result Job → Exec Store Job
answered r s = (r, s)

get_job-rewound :
    (id : String) (s : Store) (os : List Outcome)
    → (r : Result Job) × (rest : List Outcome) × (get_job id (rewound s os) ≡ (r, rewound s rest))
unfolding get_job statement answer
get_job-rewound id s [] = (_, [], refl)
get_job-rewound id s (done ∷ os) = (_, os, refl)
get_job-rewound id s (refused ∷ os) = (_, os, refl)
get_job-rewound id s (lost ∷ os) = (_, os, refl)

-- Either no change, or the two rows that `AssignJob` writes.
abbrev pub IsAllOrNothing : String → String → Store → Store → Type 0
IsAllOrNothing job_id runner_id s t =
    HasTablesOf s t ⊎ ((status : JobStatus) × IsAssigned job_id runner_id status s t)

assign_transaction :
    (job_id runner_id : String) (status : JobStatus) (s : Store) (os : List Outcome)
    → IsAllOrNothing job_id runner_id s
        (transaction (assign_statements job_id runner_id status) (rewound s os)).1
assign_transaction job_id runner_id status s os =
    elim (transaction-cases (assign_statements job_id runner_id status) (rewound s os)) [
      | inl kept ↦ inl kept
      | inr (rest, u, good, (jobs, runners)) ↦
          let both = assign_statements-ok job_id runner_id status s rest u good in
          inr (
            status,
            record {
              job_there = both.job_there;
              runner_idle = both.runner_idle;
              jobs = jobs ∙ both.jobs;
              runners = runners ∙ both.runners;
            },
          )
    ]

assign_guard :
    (job_id runner_id : String) (may : Bool) (status : JobStatus) (s : Store) (os : List Outcome)
    → IsAllOrNothing job_id runner_id s
        (choose
          (not may)
          (raise invalid_transition)
          (transaction (assign_statements job_id runner_id status))
          (rewound s os)).1
unfolding choose raise
assign_guard job_id runner_id true status s os = assign_transaction job_id runner_id status s os
assign_guard job_id runner_id false status s os = inl (refl, refl)

-- `AssignJob` is all or nothing, however the database answers: both tables stay as they were, or the
-- job row, found in the status that was read, points to the runner with one more attempt and the
-- runner row, which was IDLE, points to the job.
pub assign_job-atomic :
    (job_id runner_id : String) (s : Store)
    → IsAllOrNothing job_id runner_id s (assign_job job_id runner_id s).1
unfolding assign_job ◌>>=◌
assign_job-atomic job_id runner_id s =
    let (r, rest, e) = get_job-rewound job_id s s.outcomes in rw e (go r rest)
  where
    go :
        (r : Result Job) (rest : List Outcome)
        → IsAllOrNothing job_id runner_id s
            ((answered r >>= λ job.
                choose
                  (not (can_transition_to job.status assigned))
                  (raise invalid_transition)
                  (transaction (assign_statements job_id runner_id job.status)))
              (rewound s rest)).1
    go (ok job) rest = assign_guard job_id runner_id _ job.status s rest
    go (err x) rest = inl (refl, refl)
