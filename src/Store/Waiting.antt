-- ===== src/Store/Waiting.antt =====
-- internal/store/store.go: the methods that make no job QUEUED.
use mathlib.Core.Option
use grid_runner.Prelude.{
  ℕ, ◌≡◌, refl, sym, ap, ◌∙◌, String, ℤ, Bool, true, false, none, some, List, [], ◌∷◌, Bool-cases,
  Option-cases, inl, inr, if◌then◌else◌,
}
use grid_runner.Fallible.{Result}
use grid_runner.Exec.{Exec}
use grid_runner.Exec.Always.{
  IsPreorder, Always, Always-pure, Always-raise, Always-bind, Always-choose, Always-test,
  always_rules,
}
use grid_runner.Models.{Job, JobStatus, queued, running, cancelled, job_status_eq, Runner}
use grid_runner.Store.{JobRow, RunnerRow, Store, Outcome, done, refused, lost, answer, statement}
use grid_runner.Store.Rows.{find_row, update_rows, find_row-update_rows, find_row-passes}
use grid_runner.Store.Statements.{job_has_id, get_job, update_jobs, update_runners}
use grid_runner.Store.Jobs.{
  set_status, transition, release_runner, release_of, start_job, complete_job, cancel_job,
  append_logs,
}
use grid_runner.Store.Runners.{register_runner, heartbeat, runner_token_hash}

abbrev pub is_queued : JobRow → Bool
is_queued r = job_status_eq r.status queued

-- The job of that id waits for a runner.
abbrev pub Queued : String → List JobRow → Type 0
Queued id jobs = (r : JobRow) × (find_row (job_has_id id) jobs ≡ some r) × (is_queued r ≡ true)

pub record QueuesNone (s t : Store) : Type 0 where
  pub queued_before : (id : String) → Queued id t.jobs → Queued id s.jobs

pub QueuesNone-preorder : IsPreorder QueuesNone
QueuesNone-preorder = record {
  stays = λ s. record { queued_before = λ id q. q };
  joins = λ s t u p q. record { queued_before = λ id x. p.queued_before id (q.queued_before id x) };
}

-- An UPDATE that leaves the ids, and makes no row of its WHERE QUEUED.
pub Queued-update_rows :
    (test : JobRow → Bool) (f : JobRow → JobRow) (jobs : List JobRow) (id : String)
    → ((r : JobRow) → job_has_id id (f r) ≡ job_has_id id r)
    → ((r : JobRow)
        → job_has_id id r ≡ true
        → test r ≡ true
        → is_queued (f r) ≡ true
        → is_queued r ≡ true)
    → Queued id (update_rows test f jobs)
    → Queued id jobs
Queued-update_rows test f jobs id same none_new (u, found, waits) =
    let whole = find_row-update_rows (job_has_id id) test f jobs same in
    elim (Option-cases (find_row (job_has_id id) jobs)) [
      | inl missing ↦ absurd (
          let gone : find_row (job_has_id id) (update_rows test f jobs) ≡ none =
            whole ∙ ap (Option.map _) missing in
          cc)
      | inr (r, there) ↦
          let now : some (if test r then f r else r) ≡ some u =
            sym (ap (Option.map _) there) ∙ (sym whole ∙ found) in
          let mine = find_row-passes (job_has_id id) jobs r there in
          elim (Bool-cases (test r)) [
            | inl hit ↦
                let this : some (f r) ≡ some u = rw hit at now in
                let row : u ≡ f r = cc in
                (r, there, none_new r mine hit (ap is_queued (sym row) ∙ waits))
            | inr miss ↦
                let this : some r ≡ some u = rw miss at now in
                let row : u ≡ r = cc in (r, there, ap is_queued (sym row) ∙ waits)
          ]
    ]

module _ {A : Type 0} where
  pub QueuesNone-statement :
      (m : Exec Store A) → Always QueuesNone m → Always QueuesNone (statement m)
  unfolding statement answer
  QueuesNone-statement m h = record { at = λ s. go s.outcomes s }
    where
      from : (os : List Outcome) (s : Store) → QueuesNone s (m (record s { outcomes = os })).1
      from os s = record { queued_before = (h.at (record s { outcomes = os })).queued_before }

      go : (os : List Outcome) (s : Store) → QueuesNone s (answer os m s).1
      go [] s = h.at s
      go (done ∷ os) s = from os s
      go (refused ∷ os) s = record { queued_before = λ id q. q }
      go (lost ∷ os) s = from os s

  pub QueuesNone-select : (f : Store → Result A) → Always QueuesNone (statement (λ s. (f s, s)))
  QueuesNone-select f = QueuesNone-statement _ (record { at = QueuesNone-preorder.stays })

QueuesNone-update_jobs :
    (test : JobRow → Bool) (set : ℕ → JobRow → JobRow)
    → ((now : ℕ) (id : String) (r : JobRow) → job_has_id id (set now r) ≡ job_has_id id r)
    → ((now : ℕ) (r : JobRow) → is_queued (set now r) ≡ true → is_queued r ≡ true)
    → Always QueuesNone (update_jobs test set)
unfolding update_jobs
QueuesNone-update_jobs test set same none_new = QueuesNone-statement _ (record {
  at = λ s. record {
    queued_before = λ id.
        Queued-update_rows test (set s.now) s.jobs id (same s.now id)
          (λ r mine hit. none_new s.now r);
  };
})

QueuesNone-update_runners :
    (test : RunnerRow → Bool) (set : ℕ → RunnerRow → RunnerRow)
    → Always QueuesNone (update_runners test set)
unfolding update_runners
QueuesNone-update_runners test set =
    QueuesNone-statement _ (record { at = λ s. record { queued_before = λ id q. q } })

pub QueuesNone-get_job : (id : String) → Always QueuesNone (get_job id)
unfolding get_job
QueuesNone-get_job id = QueuesNone-select _

ruleset queues_rules = (
  always_rules, QueuesNone-preorder, QueuesNone-get_job, QueuesNone-select,
  QueuesNone-update_runners,
)

QueuesNone-transition :
    (id : String) (to : JobStatus) (takes : Bool) (extra : ℕ → JobRow → JobRow)
    → ((now : ℕ) (k : String) (r : JobRow)
        → job_has_id k (extra now (set_status to r)) ≡ job_has_id k r)
    → ((now : ℕ) (r : JobRow) → is_queued (extra now (set_status to r)) ≡ false)
    → Always QueuesNone (transition id to takes extra)
unfolding transition
QueuesNone-transition id to takes extra same away =
    Always-bind _ _ QueuesNone-preorder (QueuesNone-get_job id) λ job.
      Always-choose _ _ _ (λ _. Always-raise QueuesNone-preorder _)
        (λ allowed.
          Always-choose _ _ _ (λ _. Always-raise QueuesNone-preorder _)
            (λ _.
              Always-bind _ _ QueuesNone-preorder
                (QueuesNone-update_jobs _ _ same (λ now r q. absurd (let n = away now r in cc)))
                (λ affected. search queues_rules)))

QueuesNone-release_runner : (id : String) → Always QueuesNone (release_runner id)
unfolding release_runner
QueuesNone-release_runner id = search queues_rules

QueuesNone-release_of : (j : Job) → Always QueuesNone (release_of j)
unfolding release_of
QueuesNone-release_of j = search (queues_rules, QueuesNone-release_runner)

pub QueuesNone-start_job : (id : String) → Always QueuesNone (start_job id)
unfolding start_job
QueuesNone-start_job id =
    Always-bind _ _ QueuesNone-preorder
      (QueuesNone-transition id running _ _ (λ now k r. refl) (λ now r. refl))
      (λ job. Always-pure QueuesNone-preorder tt)

pub QueuesNone-complete_job :
    (id : String) (status : JobStatus) (exit_code : ℤ) (err_msg : String)
    → job_status_eq status queued ≡ false
    → Always QueuesNone (complete_job id status exit_code err_msg)
unfolding complete_job
QueuesNone-complete_job id status exit_code err_msg away =
    Always-bind _ _ QueuesNone-preorder
      (QueuesNone-transition id status _ _ (λ now k r. refl) (λ now r. away)) QueuesNone-release_of

pub QueuesNone-cancel_job : (id : String) → Always QueuesNone (cancel_job id)
unfolding cancel_job
QueuesNone-cancel_job id =
    Always-bind _ _ QueuesNone-preorder
      (QueuesNone-transition id cancelled _ _ (λ now k r. refl) (λ now r. refl))
      QueuesNone-release_of

pub QueuesNone-append_logs :
    (id : String) (seq : ℕ) (chunk : List ℕ) → Always QueuesNone (append_logs id seq chunk)
unfolding append_logs
QueuesNone-append_logs id seq chunk =
    Always-choose _ _ _ (λ _. Always-raise QueuesNone-preorder _)
      (λ _.
        Always-bind _ _ QueuesNone-preorder
          (QueuesNone-update_jobs _ _ (λ now k r. refl) (λ now r q. q))
          (λ affected. search queues_rules))

pub QueuesNone-register_runner :
    (r : Runner) (token_hash : String) → Always QueuesNone (register_runner r token_hash)
unfolding register_runner
QueuesNone-register_runner r token_hash = QueuesNone-statement _ (
    Always-test _ _ _ (λ s _. (Always-raise QueuesNone-preorder _).at s)
      (λ s _. record { queued_before = λ id q. q }))

pub QueuesNone-heartbeat : (id : String) → Always QueuesNone (heartbeat id)
unfolding heartbeat
QueuesNone-heartbeat id = search queues_rules

pub QueuesNone-runner_token_hash : (id : String) → Always QueuesNone (runner_token_hash id)
unfolding runner_token_hash
QueuesNone-runner_token_hash id = QueuesNone-select _
