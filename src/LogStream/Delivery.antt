-- ===== src/LogStream/Delivery.antt =====
-- What a log streamer sends, and what the control plane's log becomes of it.
use mathlib.Core.List.{append-nil, append_assoc}
use grid_runner.Prelude.{
  ℕ, suc, ◌≡◌, refl, sym, ap, ◌∙◌, String, Bool, true, false, some, List, [], ◌∷◌, ◌++◌, arith, ltb,
  lt→ltb, Bool-cases, inl, inr,
}
use grid_runner.Store.{JobRow}
use grid_runner.Store.Rows.{find_row, find_row-update_rows, find_row-passes}
use grid_runner.Store.Statements.{job_has_id}
use grid_runner.Store.LogAppends.{appended, fits, add_chunk}
use grid_runner.LogStream.{
  LogStreamer, new_log_streamer, send_all, write, flush, close, Call, writes, tick, closes, step,
  run,
}

-- The bytes of the chunks, and the bytes that the build wrote.
abbrev pub joined : List (ℕ × List ℕ) → List ℕ
joined [] = []
joined ((seq, chunk) ∷ rest) = chunk ++ joined rest

abbrev pub written : List Call → List ℕ
written [] = []
written (writes p ∷ cs) = p ++ written cs
written (_ ∷ cs) = written cs

-- The chunks are numbered from the number after `n`, one by one, up to `m`.
abbrev pub IsNumbered : ℕ → List (ℕ × List ℕ) → ℕ → Type 0
IsNumbered n [] m = n ≡ m
IsNumbered n ((seq, chunk) ∷ rest) m = (seq ≡ suc n) × IsNumbered seq rest m

joined-append : (xs ys : List (ℕ × List ℕ)) → joined (xs ++ ys) ≡ joined xs ++ joined ys
joined-append [] ys = refl
joined-append ((seq, chunk) ∷ xs) ys =
    ap (λ l. chunk ++ l) (joined-append xs ys) ∙ sym (append_assoc chunk (joined xs) (joined ys))

IsNumbered-append :
    (n : ℕ) (xs : List (ℕ × List ℕ)) (m : ℕ) (chunk : List ℕ)
    → IsNumbered n xs m
    → IsNumbered n (xs ++ (suc m, chunk) ∷ []) (suc m)
IsNumbered-append n [] m chunk h = (ap suc (sym h), refl)
IsNumbered-append n ((seq, c) ∷ xs) m chunk (e, h) = (e, IsNumbered-append seq xs m chunk h)

-- All that a streamer has taken so far.
abbrev taken_in : LogStreamer → List ℕ
taken_in s = joined s.sent ++ s.buf

send_all-taken_in :
    (s : LogStreamer) (chunk : List ℕ) → s.buf ≡ chunk → taken_in (send_all chunk s) ≡ taken_in s
send_all-taken_in s [] e = refl
send_all-taken_in s (b ∷ chunk) e =
    append-nil (joined (s.sent ++ (suc s.seq, b ∷ chunk) ∷ []))
    ∙ joined-append s.sent ((suc s.seq, b ∷ chunk) ∷ [])
    ∙ ap (λ l. joined s.sent ++ l) (append-nil (b ∷ chunk) ∙ sym e)

send_all-IsNumbered :
    (s : LogStreamer) (chunk : List ℕ)
    → IsNumbered 0 s.sent s.seq
    → IsNumbered 0 (send_all chunk s).sent (send_all chunk s).seq
send_all-IsNumbered s [] h = h
send_all-IsNumbered s (b ∷ chunk) h = IsNumbered-append 0 s.sent s.seq (b ∷ chunk) h

-- One call keeps the order and the numbers, and takes in what it writes.
taken_in-step : (s : LogStreamer) (c : Call) → taken_in (step s c) ≡ taken_in s ++ written (c ∷ [])
unfolding step write flush close
taken_in-step s (writes p) =
    sym (append_assoc (joined s.sent) s.buf p)
    ∙ ap (λ l. (joined s.sent ++ s.buf) ++ l) (sym (append-nil p))
taken_in-step s tick = send_all-taken_in s s.buf refl ∙ sym (append-nil (taken_in s))
taken_in-step s closes = elim (Bool-cases s.closed) [
  | inl e ↦ rw e (sym (append-nil (taken_in s)))
  | inr e ↦
      rw e
        (send_all-taken_in (record s { closed = true }) s.buf refl ∙ sym (append-nil (taken_in s)))
]

step-IsNumbered :
    (s : LogStreamer) (c : Call)
    → IsNumbered 0 s.sent s.seq
    → IsNumbered 0 (step s c).sent (step s c).seq
unfolding step write flush close
step-IsNumbered s (writes p) h = h
step-IsNumbered s tick h = send_all-IsNumbered s s.buf h
step-IsNumbered s closes h = elim (Bool-cases s.closed) [
  | inl e ↦ rw e h
  | inr e ↦ rw e (send_all-IsNumbered (record s { closed = true }) s.buf h)
]

written-append : (c : Call) (cs : List Call) → written (c ∷ []) ++ written cs ≡ written (c ∷ cs)
written-append (writes p) cs = append_assoc p [] (written cs)
written-append tick cs = refl
written-append closes cs = refl

run_keeps :
    (s : LogStreamer) (cs : List Call)
    → IsNumbered 0 s.sent s.seq
    → (taken_in (run s cs) ≡ taken_in s ++ written cs) × IsNumbered 0 (run s cs).sent (run s cs).seq
unfolding run
run_keeps s [] h = (sym (append-nil (taken_in s)), h)
run_keeps s (c ∷ cs) h =
    let (all, numbered) = run_keeps (step s c) cs (step-IsNumbered s c h) in
    (
      all
          ∙ ap (λ l. l ++ written cs) (taken_in-step s c)
          ∙ append_assoc (taken_in s) (written (c ∷ [])) (written cs)
          ∙ ap (λ l. taken_in s ++ l) (written-append c cs),
      numbered,
    )

-- `Close` is among the calls.
abbrev pub has_close : List Call → Bool
has_close [] = false
has_close (closes ∷ cs) = true
has_close (_ ∷ cs) = has_close cs

send_all-buf : (s : LogStreamer) (chunk : List ℕ) → s.buf ≡ chunk → (send_all chunk s).buf ≡ []
send_all-buf s [] e = e
send_all-buf s (b ∷ chunk) e = refl

run-append : (s : LogStreamer) (cs ds : List Call) → run s (cs ++ ds) ≡ run (run s cs) ds
unfolding run
run-append s [] ds = refl
run-append s (c ∷ cs) ds = run-append (step s c) cs ds

send_all-closed : (s : LogStreamer) (chunk : List ℕ) → (send_all chunk s).closed ≡ s.closed
send_all-closed s [] = refl
send_all-closed s (b ∷ chunk) = refl

still_open :
    (s : LogStreamer) (cs : List Call)
    → has_close cs ≡ false
    → s.closed ≡ false
    → (run s cs).closed ≡ false
unfolding run step write flush
still_open s [] h e = e
still_open s (writes p ∷ cs) h e = still_open (step s (writes p)) cs h e
still_open s (tick ∷ cs) h e = still_open (step s tick) cs h (send_all-closed s s.buf ∙ e)
still_open s (closes ∷ cs) h e = absurd (cc)

close-buf : (s : LogStreamer) → s.closed ≡ false → (close s).buf ≡ []
unfolding close flush
close-buf s e = rw e (send_all-buf (record s { closed = true }) s.buf refl)

written-closed : (cs : List Call) → written (cs ++ closes ∷ []) ≡ written cs
written-closed [] = refl
written-closed (writes p ∷ cs) = ap (λ l. p ++ l) (written-closed cs)
written-closed (tick ∷ cs) = written-closed cs
written-closed (closes ∷ cs) = written-closed cs

-- A streamer that is closed after any writes and ticks has sent, in chunks numbered 1, 2, 3, and so
-- on, exactly the bytes that were written, in their order.
pub closed_streamer_sent_all :
    (cs : List Call)
    → has_close cs ≡ false
    → let s = run new_log_streamer (cs ++ closes ∷ []) in
      (joined s.sent ≡ written cs) × IsNumbered 0 s.sent s.seq
unfolding run step
closed_streamer_sent_all cs no_close =
    let s = run new_log_streamer (cs ++ closes ∷ []) in
    let (all, numbered) = run_keeps new_log_streamer (cs ++ closes ∷ []) refl in
    let empty : s.buf ≡ [] =
      rw (run-append new_log_streamer cs (closes ∷ []))
        (close-buf (run new_log_streamer cs) (still_open new_log_streamer cs no_close refl)) in
    (
      sym (append-nil (joined s.sent))
          ∙ ap (λ l. joined s.sent ++ l) (sym empty)
          ∙ all
          ∙ written-closed cs,
      numbered,
    )

-- Each chunk arrives with a complete `AppendLogs`.
abbrev arrive : String → List (ℕ × List ℕ) → List JobRow → List JobRow
arrive id [] rs = rs
arrive id ((seq, chunk) ∷ rest) rs = arrive id rest (appended id seq chunk rs)

arrive-numbered :
    (id : String) (chunks : List (ℕ × List ℕ)) (m : ℕ) (rs : List JobRow) (r : JobRow)
    → find_row (job_has_id id) rs ≡ some r
    → IsNumbered r.log_seq chunks m
    → (u : JobRow) × (find_row (job_has_id id) (arrive id chunks rs) ≡ some u)
      × (u.logs ≡ r.logs ++ joined chunks)
arrive-numbered id [] m rs r found h = (r, found, sym (append-nil r.logs))
arrive-numbered id ((seq, chunk) ∷ rest) m rs r found (e, h) =
    let mine = find_row-passes (job_has_id id) rs r found in
    let newer : ltb r.log_seq seq ≡ true = lt→ltb r.log_seq seq (omega (arith, e)) in
    let here : find_row (job_has_id id) (appended id seq chunk rs) ≡ some (add_chunk seq chunk r) =
      find_row-update_rows (job_has_id id) (fits id seq) (add_chunk seq chunk) rs (λ x. refl)
      ∙ rw (found, mine, newer) refl in
    let (u, later, logs) =
      arrive-numbered id rest m (appended id seq chunk rs) (add_chunk seq chunk r) here h in
    (u, later, logs ∙ append_assoc r.logs chunk (joined rest))

-- From a build to the job's log: when the log of a job has no chunk yet, and all chunks of a closed
-- streamer arrive in order, the log grows by exactly the bytes that the build wrote.
build_output_arrives :
    (cs : List Call) (id : String) (rs : List JobRow) (r : JobRow)
    → has_close cs ≡ false
    → find_row (job_has_id id) rs ≡ some r
    → r.log_seq ≡ 0
    → (u : JobRow) × (find_row
          (job_has_id id)
          (arrive id (run new_log_streamer (cs ++ closes ∷ [])).sent rs)
        ≡ some u)
      × (u.logs ≡ r.logs ++ written cs)
build_output_arrives cs id rs r no_close found fresh =
    let s = run new_log_streamer (cs ++ closes ∷ []) in
    let (all, numbered) = closed_streamer_sent_all cs no_close in
    let (u, later, logs) = arrive-numbered id s.sent s.seq rs r found (rw fresh numbered) in
    (u, later, logs ∙ ap (λ l. r.logs ++ l) all)
