-- ===== src/Migrations/Completion.antt =====
-- internal/store/migrate.go, Migrate: what a run without an error has done, and a second run.
use grid_runner.Prelude.{
  ◌≡◌, refl, sym, ap, ◌∙◌, inl, inr, String, Bool, true, false, List, [], ◌∷◌, Option-cases,
}
use grid_runner.Fallible.{ok, err, not_found}
use grid_runner.Exec.{Exec, pure, raise, choose, from_option, ◌>>=◌, ◌>>◌}
use grid_runner.Session.{Sql, answer, statement}
use grid_runner.Session.Effects.{session, statement-ok, transaction-ok, bind-value}
use grid_runner.Migrations.{
  Engine, Files, read_file, up_migrations, has_version, Tables, Database, run_file, record_version,
  run_migration, ensure_migrations_table, apply_pending, apply_all, migrate,
}
use grid_runner.Migrations.Agreement.{up-Went, has_version-last, Forward-apply_all}

module _ (E : Engine) where
  run_migration-ok :
      (version body : String) (s : Database E) (u : Unit {0})
      → (run_migration E version body true s).0 ≡ ok u
      → has_version version (run_migration E version body true s).1.tables.versions ≡ true
  unfolding run_migration
  run_migration-ok version body s u h =
      let went = transaction-ok (run_file E body >> record_version E version true) s u h in
      let applied = up-Went E version body s.tables _ went in
      rw applied.recorded (has_version-last E version s.tables.versions)

  -- After the test of `schema_migrations`.
  abbrev unless_applied : Files → String → Bool → Exec (Database E) (Unit {0})
  unless_applied files name applied = choose applied (pure tt) (
      from_option (read_file name files) (raise not_found) (λ body. run_migration E name body true))

  unless_applied-ok :
      (files : Files) (name : String) (applied : Bool) (s : Database E) (u : Unit {0})
      → has_version name s.tables.versions ≡ applied
      → (unless_applied files name applied s).0 ≡ ok u
      → has_version name (unless_applied files name applied s).1.tables.versions ≡ true
  unfolding choose from_option pure raise
  unless_applied-ok files name true s u there h = there
  unless_applied-ok files name false s u there h = elim (Option-cases (read_file name files)) [
    | inl gone ↦ absurd (let bad : err not_found ≡ ok u = rw gone at h in cc)
    | inr (body, found) ↦ rw found (run_migration-ok name body s u (rw found at h))
  ]

  abbrev is_applied : String → Sql (Tables E) Bool
  is_applied name t = (ok (has_version name t.versions), t)

  apply_pending-ok :
      (files : Files) (name : String) (s : Database E) (u : Unit {0})
      → (apply_pending E files name s).0 ≡ ok u
      → has_version name (apply_pending E files name s).1.tables.versions ≡ true
  unfolding apply_pending
  apply_pending-ok files name s u h =
      let (applied, answered, rest) =
        bind-value (statement (is_applied name)) (unless_applied files name) s u h in
      let (value, same) = statement-ok (is_applied name) s applied answered in
      let now : has_version name (statement (is_applied name) s).1.tables.versions ≡ applied =
        ap (λ (t : Tables E). has_version name t.versions) same
        ∙ (let e : ok (has_version name s.tables.versions) ≡ ok applied = value in cc) in
      rw rest (
        unless_applied-ok files name applied (statement (is_applied name) s).1 u now
          (ap (λ p. p.0) (sym rest) ∙ h))

  -- Every name is recorded.
  abbrev pub AllRecorded : List String → List String → Type 0
  AllRecorded [] versions = Unit {0}
  AllRecorded (name ∷ names) versions =
      (has_version name versions ≡ true) × AllRecorded names versions

  apply_all-ok :
      (files : Files) (names : List String) (s : Database E) (u : Unit {0})
      → (apply_all E files names s).0 ≡ ok u
      → AllRecorded names (apply_all E files names s).1.tables.versions
  unfolding apply_all
  apply_all-ok files [] s u h = tt
  apply_all-ok files (name ∷ names) s u h =
      let (a, first, rest) =
        bind-value (apply_pending E files name) (λ _. apply_all E files names) s u h in
      let mid = (apply_pending E files name s).1 in
      let later = (Forward-apply_all E files mid.tables.schema names).at mid in
      rw rest (
        later.keeps name (apply_pending-ok files name s a first),
        apply_all-ok files names mid u (ap (λ p. p.0) (sym rest) ∙ h),
      )

  apply_all-recorded :
      (files : Files) (names : List String) (t : Tables E)
      → AllRecorded names t.versions
      → apply_all E files names (session t []) ≡ (ok tt, session t [])
  unfolding apply_all apply_pending ◌>>=◌ pure choose statement answer
  apply_all-recorded files [] t h = refl
  apply_all-recorded files (name ∷ names) t (there, h) =
      rw there (apply_all-recorded files names t h)

  migrate-recorded :
      (files : Files) (t : Tables E)
      → AllRecorded (up_migrations files) t.versions
      → migrate E files (session t []) ≡ (ok tt, session t [])
  unfolding migrate ensure_migrations_table ◌>>=◌ statement answer
  migrate-recorded files t h = apply_all-recorded files (up_migrations files) t h

  -- A `Migrate` that returns no error, after whatever lost answers, has recorded every forward file;
  -- and the next `Migrate`, when PostgreSQL answers, changes nothing.
  pub migrate-once :
      (files : Files) (s : Database E)
      → (migrate E files s).0 ≡ ok tt
      → let t = (migrate E files s).1.tables in
        AllRecorded (up_migrations files) t.versions
        × (migrate E files (session t []) ≡ (ok tt, session t []))
  unfolding migrate ensure_migrations_table
  migrate-once files s h =
      let (a, made, rest) =
        bind-value (ensure_migrations_table E) (λ _. apply_all E files (up_migrations files)) s tt
          h in
      let all =
        apply_all-ok files (up_migrations files) (ensure_migrations_table E s).1 tt
          (ap (λ p. p.0) (sym rest) ∙ h) in
      let recorded : AllRecorded (up_migrations files) (migrate E files s).1.tables.versions =
        rw rest all in
      (recorded, migrate-recorded files _ recorded)
