-- ===== src/Commands/Scheduler.antt =====
-- cmd/scheduler/main.go: from the start of the scheduler to the end of its process.
use grid_runner.Prelude.{
  ℕ, ◌≡◌, ◌⊎◌, inl, inr, refl, Bool, true, false, ◌&&◌, List, [], ◌∷◌, arith, ltb, Bool-cases,
}
use grid_runner.Fallible.{Err, Result, ok, err}
use grid_runner.Config.{Config, validate}
use grid_runner.Commands.{Surroundings}
use grid_runner.Queue.{Redis}
use grid_runner.World.{World}
use grid_runner.Service.{start_up}
use grid_runner.Service.Loop.{Pass, round, ticker, tick, nanos, passes, run}
use grid_runner.Api.{Codec}
use grid_runner.System.{schedule_round, reap_tick, scheduler_start, Run, here}
use grid_runner.System.Served.{one, Run-trans}

module _ ⦃R : Redis⦄ (O : Surroundings) {F : Type 0} (cfg : Config F) where
  abbrev with_redis : List Pass → Result (Unit {0}) → World → ℕ × World
  with_redis ps (err e) w = (1, w)
  with_redis ps (ok _) w = run cfg.heartbeat_timeout ps w

  abbrev with_postgres : List Pass → Result (Unit {0}) → World → ℕ × World
  with_postgres ps (err e) w = (1, w)
  with_postgres ps (ok _) w = with_redis ps (O.connect_redis cfg.redis_url) w

  abbrev valid : List Pass → Result (Unit {0}) → World → ℕ × World
  valid ps (err e) w = (1, w)
  valid ps (ok _) w = with_postgres ps (O.connect_postgres cfg.database_url) w

  unfoldable pub scheduler_main : List Pass → World → ℕ × World
  scheduler_main ps w = valid ps (validate cfg) w

  -- The settings are valid and both connections are made; or one of these fails.
  abbrev pub Works : Type 0
  Works =
      (validate cfg ≡ ok tt)
      × (O.connect_postgres cfg.database_url ≡ ok tt)
      × (O.connect_redis cfg.redis_url ≡ ok tt)

  abbrev pub Fails : Type 0
  Fails =
      (e : Err) × ((validate cfg ≡ err e)
        ⊎ ((O.connect_postgres cfg.database_url ≡ err e) ⊎ (O.connect_redis cfg.redis_url ≡ err e)))

  -- The goroutine of the reaper has come to its ticker.
  abbrev pub ticker_due : List Pass → Bool
  ticker_due [] = false
  ticker_due (round ∷ ps) = ticker_due ps
  ticker_due (ticker ∷ ps) = true
  ticker_due (tick ∷ ps) = ticker_due ps

  -- The timeout gives the ticker no time.
  abbrev pub is_short : Bool
  is_short = ltb (nanos cfg.heartbeat_timeout) 2

  -- How the process ends: the exit code and the state.
  abbrev pub IsEnded : Codec → List Pass → World → ℕ × World → Type 0
  IsEnded C ps w (code, v) =
      (Fails × (code ≡ 1) × (v ≡ w))
      ⊎ (Works
          × Run C w v
          × (((code ≡ 0) × ((ticker_due ps && is_short) ≡ false))
              ⊎ ((code ≡ 2) × ((ticker_due ps && is_short) ≡ true))))

  -- The same of the loop.
  abbrev Passed : Codec → ℕ → List Pass → World → ℕ × World → Type 0
  Passed C n ps w (code, v) =
      Run C w v
      × (((code ≡ 0) × ((ticker_due ps && ltb n 2) ≡ false))
          ⊎ ((code ≡ 2) × ((ticker_due ps && ltb n 2) ≡ true)))

  Passed-after :
      (C : Codec) (n : ℕ) (ps : List Pass) (w v : World) (out : ℕ × World)
      → Run C w v
      → Passed C n ps v out
      → Passed C n ps w out
  Passed-after C n ps w v out first (later, ends) = (Run-trans C first later, ends)

  passes-Passed :
      (C : Codec) (n : ℕ) (ticks : Bool) (ps : List Pass) (w : World)
      → Passed C n ps w (passes n ticks ps w)
  unfolding passes
  passes-Passed C n ticks [] w = (here, inl (refl, refl))
  passes-Passed C n ticks (round ∷ ps) w =
      Passed-after C n ps w _ _ (one C (schedule_round n)) (passes-Passed C n ticks ps _)
  passes-Passed C n ticks (ticker ∷ ps) w = elim (Bool-cases (ltb n 2)) [
    | inl short ↦ rw short (here, inr (refl, refl))
    | inr long ↦
        let (reached, ends) = passes-Passed C n true ps w in
        rw long (reached, inl (calm ps ends long, refl))
  ]
    where
      calm :
          {code : ℕ} (ps : List Pass)
          → ((code ≡ 0) × ((ticker_due ps && ltb n 2) ≡ false))
            ⊎ ((code ≡ 2) × ((ticker_due ps && ltb n 2) ≡ true))
          → ltb n 2 ≡ false
          → code ≡ 0
      calm ps (inl (zero_, _)) long = zero_
      calm ps (inr (_, both)) long = absurd (ground arith)
  passes-Passed C n true (tick ∷ ps) w =
      Passed-after C n ps w _ _ (one C (reap_tick n)) (passes-Passed C n true ps _)
  passes-Passed C n false (tick ∷ ps) w = passes-Passed C n false ps w

  -- The scheduler's process, on any passes of its loop, start of its reaper and ticks in any order, and
  -- whatever PostgreSQL and Redis answer to the requests. When the settings are not valid or a
  -- connection cannot be made, and only then, it ends with exit code 1 and has touched no table and no
  -- queue. Otherwise what it has done are turns of System, and it ends with 2, by a panic, if the
  -- reaper has come to its ticker and the heartbeat timeout is below two nanoseconds, and else with 0.
  pub scheduler_main-IsEnded :
      (C : Codec) (ps : List Pass) (w : World) → IsEnded C ps w (scheduler_main ps w)
  unfolding scheduler_main run
  scheduler_main-IsEnded C ps w = go (validate cfg) refl
    where
      redis :
          (r : Result (Unit {0}))
          → O.connect_redis cfg.redis_url ≡ r
          → validate cfg ≡ ok tt
          → O.connect_postgres cfg.database_url ≡ ok tt
          → IsEnded C ps w (with_redis ps r w)
      redis (err e) same valid_ stored = inl ((e, inr (inr same)), refl, refl)
      redis (ok _) same valid_ stored =
          let (reached, ends) =
            Passed-after C (nanos cfg.heartbeat_timeout) ps w (start_up w).1 _
              (one C scheduler_start)
              (passes-Passed C (nanos cfg.heartbeat_timeout) false ps (start_up w).1) in
          inr ((valid_, stored, same), reached, ends)

      postgres :
          (r : Result (Unit {0}))
          → O.connect_postgres cfg.database_url ≡ r
          → validate cfg ≡ ok tt
          → IsEnded C ps w (with_postgres ps r w)
      postgres (err e) same valid_ = inl ((e, inr (inl same)), refl, refl)
      postgres (ok _) same valid_ = redis (O.connect_redis cfg.redis_url) refl valid_ same

      go : (r : Result (Unit {0})) → validate cfg ≡ r → IsEnded C ps w (valid ps r w)
      go (err e) same = inl ((e, inl same), refl, refl)
      go (ok _) same = postgres (O.connect_postgres cfg.database_url) refl same
