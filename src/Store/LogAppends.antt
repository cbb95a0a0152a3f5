-- ===== src/Store/LogAppends.antt =====
-- internal/store/store.go, AppendLogs: chunks that arrive twice, late, or after a new attempt.
use grid_runner.Store.Columns.{takes_chunk}
use grid_runner.Prelude.{
  ℕ, ◌≡◌, refl, ap, ◌∙◌, sym, String, Bool, true, false, ◌&&◌, some, List, [], ◌∷◌, ◌++◌, arith,
  ltb, Bool-cases, Option-cases, ◌⊎◌, eq_iff, inl, inr,
}
use grid_runner.Fallible.{ok, err, out_of_range}
use grid_runner.Exec.{Exec, pure, raise, choose, ◌>>=◌}
use grid_runner.Store.{JobRow, RunnerRow, Store, Outcome, done, refused, lost, statement, answer}
use grid_runner.Store.Rows.{find_row, update_rows}
use grid_runner.Store.Statements.{job_has_id, update_jobs}
use grid_runner.Store.Keys.{HasKeys, AreAllDistinct}
use grid_runner.Store.Jobs.{append_logs, scan_seq}

abbrev pub fits : String → ℕ → JobRow → Bool
fits id seq r = job_has_id id r && ltb r.log_seq seq

abbrev pub add_chunk : ℕ → List ℕ → JobRow → JobRow
add_chunk seq chunk r = record r { logs = r.logs ++ chunk; log_seq = seq }

-- A database that does every request.
abbrev pub quiet_store : List JobRow → List RunnerRow → ℕ → Store
quiet_store jobs runners now = record { jobs = jobs; runners = runners; now = now; outcomes = [] }

-- What one complete `AppendLogs` makes of the table.
abbrev pub appended : String → ℕ → List ℕ → List JobRow → List JobRow
appended id seq chunk = update_rows (fits id seq) (add_chunk seq chunk)

added_does_not_fit :
    (id : String) (seq : ℕ) (chunk : List ℕ) (r : JobRow)
    → fits id seq (add_chunk seq chunk r) ≡ false
added_does_not_fit id seq chunk r = ground arith

appended-appended :
    (id : String) (seq : ℕ) (chunk : List ℕ) (rs : List JobRow)
    → appended id seq chunk (appended id seq chunk rs) ≡ appended id seq chunk rs
unfolding update_rows
appended-appended id seq chunk [] = refl
appended-appended id seq chunk (r ∷ rs) = elim (Bool-cases (fits id seq r)) [
  | inl e ↦ rw (e, added_does_not_fit id seq chunk r, appended-appended id seq chunk rs) refl
  | inr e ↦ rw (e, e, appended-appended id seq chunk rs) refl
]

abbrev confirm : String → Bool → Exec Store (Unit {0})
confirm id b =
    choose b (pure tt)
      (statement (λ s. (scan_seq (find_row (job_has_id id) s.jobs), s)) >>= λ _. pure tt)

-- What follows the UPDATE only reads.
confirm_keeps :
    (id : String) (b : Bool) (jobs : List JobRow) (runners : List RunnerRow) (now : ℕ)
    (os : List Outcome)
    → (confirm id b (record { jobs = jobs; runners = runners; now = now; outcomes = os })).1.jobs
      ≡ jobs
unfolding choose pure statement answer ◌>>=◌
confirm_keeps id true jobs runners now os = refl
confirm_keeps id false jobs runners now [] = elim (Option-cases (find_row (job_has_id id) jobs)) [
  | inl e ↦ rw e refl
  | inr (u, e) ↦ rw e refl
]
confirm_keeps id false jobs runners now (done ∷ os) =
    elim (Option-cases (find_row (job_has_id id) jobs)) [
      | inl e ↦ rw e refl
      | inr (u, e) ↦ rw e refl
    ]
confirm_keeps id false jobs runners now (refused ∷ os) = refl
confirm_keeps id false jobs runners now (lost ∷ os) = refl

-- What the columns do not take is an error, and changes nothing.
pub append_logs-refused :
    (id : String) (seq : ℕ) (chunk : List ℕ) (s : Store)
    → takes_chunk seq chunk ≡ false
    → append_logs id seq chunk s ≡ (err out_of_range, s)
unfolding append_logs choose raise
append_logs-refused id seq chunk s e = rw e refl

append_logs-out :
    (id : String) (seq : ℕ) (chunk : List ℕ) (s : Store)
    → takes_chunk seq chunk ≡ false
    → (append_logs id seq chunk s).1.jobs ≡ s.jobs
append_logs-out id seq chunk s e = ap (λ p. p.1.jobs) (append_logs-refused id seq chunk s e)

append_logs-jobs :
    (id : String) (seq : ℕ) (chunk : List ℕ) (jobs : List JobRow) (runners : List RunnerRow)
    (now : ℕ) (os : List Outcome)
    → takes_chunk seq chunk ≡ true
    → let after =
        (append_logs id seq chunk
          (record { jobs = jobs; runners = runners; now = now; outcomes = os })).1.jobs in
      (after ≡ jobs) ⊎ (after ≡ appended id seq chunk jobs)
unfolding append_logs choose update_jobs statement answer ◌>>=◌
append_logs-jobs id seq chunk jobs runners now [] e =
    inr (rw e (confirm_keeps id _ (appended id seq chunk jobs) runners now []))
append_logs-jobs id seq chunk jobs runners now (done ∷ os) e =
    inr (rw e (confirm_keeps id _ (appended id seq chunk jobs) runners now os))
append_logs-jobs id seq chunk jobs runners now (refused ∷ os) e = inl (rw e refl)
append_logs-jobs id seq chunk jobs runners now (lost ∷ os) e = inr (rw e refl)

append_logs-quiet :
    (id : String) (seq : ℕ) (chunk : List ℕ) (jobs : List JobRow) (runners : List RunnerRow)
    (now : ℕ)
    → takes_chunk seq chunk ≡ true
    → (append_logs id seq chunk (quiet_store jobs runners now)).1.jobs ≡ appended id seq chunk jobs
unfolding append_logs choose update_jobs statement answer ◌>>=◌
append_logs-quiet id seq chunk jobs runners now e =
    rw e (confirm_keeps id _ (appended id seq chunk jobs) runners now [])

-- A chunk that is sent a second time counts once: whatever became of the first `AppendLogs`, done,
-- refused, or done with its answer lost, the same call again leaves the jobs as one call does.
pub resent_chunk_counts_once :
    (id : String) (seq : ℕ) (chunk : List ℕ) (jobs : List JobRow) (runners : List RunnerRow)
    (now : ℕ) (os : List Outcome)
    → let first =
        (append_logs id seq chunk
          (record { jobs = jobs; runners = runners; now = now; outcomes = os })).1 in
      (append_logs id seq chunk (quiet_store first.jobs first.runners first.now)).1.jobs
      ≡ (append_logs id seq chunk (quiet_store jobs runners now)).1.jobs
resent_chunk_counts_once id seq chunk jobs runners now os =
    let start : Store = record { jobs = jobs; runners = runners; now = now; outcomes = os } in
    let first = (append_logs id seq chunk start).1 in
    elim (Bool-cases (takes_chunk seq chunk)) [
      | inl e ↦
          append_logs-quiet id seq chunk first.jobs first.runners first.now e
          ∙ (elim (append_logs-jobs id seq chunk jobs runners now os e) [
            | inl kept ↦ ap (appended id seq chunk) kept
            | inr once ↦ ap (appended id seq chunk) once ∙ appended-appended id seq chunk jobs
          ])
          ∙ sym (append_logs-quiet id seq chunk jobs runners now e)
      | inr out ↦
          append_logs-out id seq chunk (quiet_store first.jobs first.runners first.now) out
          ∙ append_logs-out id seq chunk start out
          ∙ sym (append_logs-out id seq chunk (quiet_store jobs runners now) out)
    ]

-- No row of a table takes a chunk that is not newer than the row of that id.
not_newer-others :
    (id : String) (seq : ℕ) (chunk : List ℕ) (x : JobRow) (xs : List JobRow)
    → AreAllDistinct x xs
    → job_has_id id x ≡ true
    → appended id seq chunk xs ≡ xs
unfolding update_rows
not_newer-others id seq chunk x [] d h = refl
not_newer-others id seq chunk x (y ∷ xs) (d, ds) h =
    let other : job_has_id id y ≡ false =
      ground (arith, d.ids, eq_iff x.id id, eq_iff y.id id, eq_iff x.id y.id) in
    rw (other, not_newer-others id seq chunk x xs ds h) refl

pub not_newer-appended :
    (id : String) (seq : ℕ) (chunk : List ℕ) (xs : List JobRow) (u : JobRow)
    → HasKeys xs
    → find_row (job_has_id id) xs ≡ some u
    → ltb u.log_seq seq ≡ false
    → appended id seq chunk xs ≡ xs
unfolding update_rows find_row
not_newer-appended id seq chunk [] u h found old = refl
not_newer-appended id seq chunk (x ∷ xs) u (d, ds) found old = elim (Bool-cases (job_has_id id x)) [
  | inl hit ↦
      let same : x ≡ u = ground arith in
      rw (hit, same, old, not_newer-others id seq chunk x xs d hit) refl
  | inr miss ↦ rw (miss, not_newer-appended id seq chunk xs u ds (rw miss at found) old) refl
]

confirm_found :
    (id : String) (b : Bool) (jobs : List JobRow) (runners : List RunnerRow) (now : ℕ) (u : JobRow)
    → find_row (job_has_id id) jobs ≡ some u
    → confirm id b (quiet_store jobs runners now) ≡ (ok tt, quiet_store jobs runners now)
unfolding choose pure statement answer ◌>>=◌
confirm_found id true jobs runners now u found = refl
confirm_found id false jobs runners now u found = rw found refl

-- When every request is done, and the job is there, the chunk is stored or passed over, and the
-- answer is the same.
pub append_logs-appended :
    (id : String) (seq : ℕ) (chunk : List ℕ) (jobs : List JobRow) (runners : List RunnerRow)
    (now : ℕ) (u : JobRow)
    → takes_chunk seq chunk ≡ true
    → find_row (job_has_id id) (appended id seq chunk jobs) ≡ some u
    → append_logs id seq chunk (quiet_store jobs runners now)
      ≡ (ok tt, quiet_store (appended id seq chunk jobs) runners now)
unfolding append_logs choose update_jobs statement answer ◌>>=◌
append_logs-appended id seq chunk jobs runners now u e found =
    rw e (confirm_found id _ (appended id seq chunk jobs) runners now u found)

-- A chunk that no row takes is answered as if it were stored.
pub append_logs-unnoticed :
    (id : String) (seq : ℕ) (chunk : List ℕ) (jobs : List JobRow) (runners : List RunnerRow)
    (now : ℕ) (u : JobRow)
    → takes_chunk seq chunk ≡ true
    → find_row (job_has_id id) jobs ≡ some u
    → appended id seq chunk jobs ≡ jobs
    → append_logs id seq chunk (quiet_store jobs runners now)
      ≡ (ok tt, quiet_store jobs runners now)
append_logs-unnoticed id seq chunk jobs runners now u e found same =
    append_logs-appended id seq chunk jobs runners now u e
      (ap (find_row (job_has_id id)) same ∙ found)
    ∙ ap (λ js. (ok tt, quiet_store js runners now)) same
