-- ===== src/Migrations/Agreement.antt =====
-- The schema and the bookkeeping table of internal/store/migrate.go.
use mathlib.Core.Path.{subst}
use grid_runner.Prelude.{
  ◌≡◌, refl, sym, ap, ◌∙◌, inl, inr, String, Bool, true, false, Option, none, some, List, [], ◌∷◌,
  ◌++◌, Option-cases, Bool-cases, ◌==◌, eq_refl,
}
use grid_runner.Fallible.{Result, ok, not_found}
use grid_runner.Exec.{from_option, ◌>>◌}
use grid_runner.Exec.Always.{
  IsPreorder, Always, Always-bind, Always-choose, Always-pure, Always-raise,
}
use grid_runner.Session.{statement}
use grid_runner.Session.Effects.{
  Went, session, statement-tables, statement-ok, transaction-tables, bind-value,
}
use grid_runner.Migrations.{
  Engine, Files, read_file, up_migrations, has_version, Tables, Database, altered, inserted,
  run_file, record_version, run_migration, ensure_migrations_table, apply_pending, apply_all,
  migrate,
}

module _ (E : Engine) where
  open E use {Schema, run}

  abbrev pub run_body : Option String → Schema → Option Schema
  run_body none s = none
  run_body (some body) s = run body s

  abbrev go_on : (Schema → Option Schema) → Option Schema → Option Schema
  go_on f none = none
  go_on f (some s) = f s

  -- The files of the versions, run one after the other.
  abbrev pub replay : Files → List String → Schema → Option Schema
  replay files [] s = some s
  replay files (v ∷ vs) s = go_on (replay files vs) (run_body (read_file v files) s)

  replay-append :
      (files : Files) (vs : List String) (v : String) (s : Schema)
      → replay files (vs ++ v ∷ []) s ≡ go_on (run_body (read_file v files)) (replay files vs s)
  replay-append files [] v s = elim (Option-cases (run_body (read_file v files) s)) [
    | inl e ↦ rw e refl
    | inr (t, e) ↦ rw e refl
  ]
  replay-append files (w ∷ vs) v s = elim (Option-cases (run_body (read_file w files) s)) [
    | inl e ↦ rw e refl
    | inr (t, e) ↦ rw e (replay-append files vs v t)
  ]

  -- The schema is what the recorded files make of `start`, in the order in which they were recorded.
  abbrev pub Agrees : Files → Schema → Tables E → Type 0
  Agrees files start t = replay files t.versions start ≡ some t.schema

  altered_ok :
      (o : Option Schema) (t : Tables E) (u : Unit {0})
      → (altered E o t).0 ≡ ok u
      → (s : Schema) × (o ≡ some s) × ((altered E o t).1 ≡ record t { schema = s })
  altered_ok none t u h = absurd (cc)
  altered_ok (some s) t u h = (s, refl, refl)

  inserted_ok :
      (version : String) (there : Bool) (t : Tables E) (u : Unit {0})
      → (inserted E version there t).0 ≡ ok u
      → (there ≡ false)
        × ((inserted E version there t).1 ≡ record t { versions = t.versions ++ version ∷ [] })
  inserted_ok version true t u h = absurd (cc)
  inserted_ok version false t u h = (refl, refl)

  -- What a forward migration that is committed does.
  pub record IsApplied (version body : String) (t u : Tables E) : Type 0 where
    pub pending : has_version version t.versions ≡ false
    pub ran : run body t.schema ≡ some u.schema
    pub recorded : u.versions ≡ t.versions ++ version ∷ []

  pub up-Went :
      (version body : String) (t u : Tables E)
      → Went (run_file E body >> record_version E version true) t u
      → IsApplied version body t u
  unfolding run_file record_version
  up-Went version body t u (os, a, good, left) =
      let (b, ran, rest) = bind-value _ _ (session t os) a good in
      let (ran', moved) =
        statement-ok (λ t. altered E (run body t.schema) t) (session t os) b ran in
      let (s, made, changed) = altered_ok (run body t.schema) t b ran' in
      let after = statement (λ t. altered E (run body t.schema) t) (session t os) in
      let (good', inserts) =
        statement-ok (λ t. inserted E version (has_version version t.versions) t) after.1 a
          (ap (λ p. p.0) (sym rest) ∙ good) in
      let mid : after.1.tables ≡ record t { schema = s } = moved ∙ changed in
      let (new, rows) =
        inserted_ok version (has_version version after.1.tables.versions) after.1.tables a good' in
      let whole : u ≡ record t { schema = s; versions = t.versions ++ version ∷ [] } =
        sym left
        ∙ ap (λ p. p.1.tables) rest
        ∙ inserts
        ∙ rows
        ∙ ap (λ (x : Tables E). record x { versions = x.versions ++ version ∷ [] }) mid in
      record {
        pending = ap (λ (x : Tables E). has_version version x.versions) (sym mid) ∙ new;
        ran = made ∙ ap (λ (x : Tables E). some x.schema) (sym whole);
        recorded = ap (λ (x : Tables E). x.versions) whole;
      }

  has_version-append :
      (v w : String) (vs : List String)
      → has_version v vs ≡ true
      → has_version v (vs ++ w ∷ []) ≡ true
  unfolding has_version
  has_version-append v w [] h = absurd (cc)
  has_version-append v w (x ∷ vs) h = elim (Bool-cases (x == v)) [
    | inl hit ↦ rw hit refl
    | inr miss ↦ rw miss (has_version-append v w vs (rw miss at h))
  ]

  pub has_version-last : (v : String) (vs : List String) → has_version v (vs ++ v ∷ []) ≡ true
  unfolding has_version
  has_version-last v [] = rw (eq_refl v) refl
  has_version-last v (x ∷ vs) = elim (Bool-cases (x == v)) [
    | inl hit ↦ rw hit refl
    | inr miss ↦ rw miss (has_version-last v vs)
  ]

  -- What no request of `Migrate` breaks: the schema agrees with the records, and a record stays.
  pub record Forward (files : Files) (start : Schema) (s t : Database E) : Type 0 where
    pub agrees : Agrees files start s.tables → Agrees files start t.tables
    pub keeps :
        (v : String)
        → has_version v s.tables.versions ≡ true
        → has_version v t.tables.versions ≡ true

  module _ (files : Files) (start : Schema) where
    pub Forward-preorder : IsPreorder (Forward files start)
    Forward-preorder = record {
      stays = λ s. record { agrees = λ h. h; keeps = λ v h. h };
      joins = λ s t u p q. record {
        agrees = λ h. q.agrees (p.agrees h);
        keeps = λ v h. q.keeps v (p.keeps v h);
      };
    }

    same_tables : (s t : Database E) → t.tables ≡ s.tables → Forward files start s t
    same_tables s t e = record {
      agrees = λ h. subst (Agrees files start) (sym e) h;
      keeps = λ v h. subst (λ (x : Tables E). has_version v x.versions ≡ true) (sym e) h;
    }

    applied-Forward :
        (version body : String) (s t : Database E)
        → read_file version files ≡ some body
        → IsApplied version body s.tables t.tables
        → Forward files start s t
    applied-Forward version body s t found done_ = record {
      agrees = λ h. rw done_.recorded (
          replay-append files s.tables.versions version start
          ∙ ap (go_on (run_body (read_file version files))) h
          ∙ ap (λ o. run_body o s.tables.schema) found
          ∙ done_.ran);
      keeps = λ v h. rw done_.recorded (has_version-append v version s.tables.versions h);
    }

    Forward-run_migration :
        (version body : String)
        → read_file version files ≡ some body
        → Always (Forward files start) (run_migration E version body true)
    unfolding run_migration
    Forward-run_migration version body found = record {
      at = λ s. elim (transaction-tables (run_file E body >> record_version E version true) s) [
        | inl same ↦ same_tables s _ same
        | inr went ↦ applied-Forward version body s _ found (up-Went version body _ _ went)
      ];
    }

    Forward-read :
        {A : Type 0} (f : Tables E → Result A)
        → Always (Forward files start) (statement {T = Tables E} (λ t. (f t, t)))
    Forward-read f = record {
      at = λ s. elim (statement-tables {T = Tables E} (λ t. (f t, t)) s) [
        | inl same ↦ same_tables s _ same
        | inr same ↦ same_tables s _ same
      ];
    }

    Forward-apply_pending :
        (name : String) → Always (Forward files start) (apply_pending E files name)
    unfolding apply_pending from_option
    Forward-apply_pending name =
        Always-bind _ _ Forward-preorder (Forward-read (λ t. ok (has_version name t.versions)))
          (λ applied.
            Always-choose applied _ _ (λ _. Always-pure Forward-preorder tt)
              (λ _. elim (Option-cases (read_file name files)) [
                | inl gone ↦ rw gone (Always-raise Forward-preorder not_found)
                | inr (body, found) ↦ rw found (Forward-run_migration name body found)
              ]))

    pub Forward-apply_all :
        (names : List String) → Always (Forward files start) (apply_all E files names)
    unfolding apply_all
    Forward-apply_all [] = Always-pure Forward-preorder tt
    Forward-apply_all (name ∷ names) =
        Always-bind _ _ Forward-preorder (Forward-apply_pending name) (λ _. Forward-apply_all names)

    Forward-migrate : Always (Forward files start) (migrate E files)
    unfolding migrate ensure_migrations_table
    Forward-migrate =
        Always-bind _ _ Forward-preorder (Forward-read (λ t. ok tt))
          (λ _. Forward-apply_all (up_migrations files))

  -- However PostgreSQL answers, and whether or not it returns an error, `Migrate` leaves a schema
  -- that agrees with `schema_migrations` if they agreed before: running the recorded files, in the
  -- order of their records, on the schema at the start of all gives the schema.
  pub migrate-Agrees :
      (files : Files) (start : Schema) (s : Database E)
      → Agrees files start s.tables
      → Agrees files start (migrate E files s).1.tables
  migrate-Agrees files start s h = let f = (Forward-migrate files start).at s in f.agrees h
