-- ===== src/Migrations.antt =====
-- internal/store/migrate.go: applying and undoing the embedded SQL files. What a file does to the
-- schema is a parameter. A bookkeeping table that is not there yet is an empty one: each method
-- makes it first.
pub mod Agreement
pub mod Completion
pub mod Undoing
use Prim.Native.String.{len, slice, ◌++◌ as ◌<>◌}
use grid_runner.Prelude.{
  ℕ, ◌-◌, String, Bool, true, false, not, ◌||◌, Option, none, some, List, [], ◌∷◌, ◌++◌, ltb, take,
  map, ◌==◌, if◌then◌else◌, text_lt,
}
use grid_runner.Fallible.{Result, ok, err, malformed, not_found, unique_violation}
use grid_runner.Exec.{Exec, pure, raise, choose, from_option, ◌>>=◌, ◌>>◌}
use grid_runner.Store.Rows.{select_rows, order_rows}
use grid_runner.Session.{Session, Sql, statement, transaction}

-- What PostgreSQL makes of a file; `none` is an error of the SQL.
pub record Engine : Type 1 where
  pub Schema : Type 0
  pub run : String → Schema → Option Schema

-- The embedded directory: names and contents, without two files of one name.
abbrev pub Files : Type 0
Files = List (String × String)

unfoldable pub read_file : String → Files → Option String
read_file name [] = none
read_file name ((n, body) ∷ rest) = if n == name then some body else read_file name rest

-- `strings.HasSuffix` and `strings.TrimSuffix`.
unfoldable pub has_suffix : String → String → Bool
has_suffix s suffix =
    if ltb (len s) (len suffix) then false else slice s (len s - len suffix) (len s) == suffix

unfoldable pub trim_suffix : String → String → String
trim_suffix s suffix = if has_suffix s suffix then slice s 0 (len s - len suffix) else s

-- `sort.Strings(fs.Glob("*.sql") without *.down.sql)`.
unfoldable pub up_migrations : Files → List String
up_migrations files =
    order_rows (λ a b. not (text_lt b a))
      (select_rows (λ name. not (has_suffix name ".down.sql"))
        (select_rows (λ name. has_suffix name ".sql") (map (λ (f : String × String). f.0) files)))

unfoldable pub down_name : String → String
down_name version = trim_suffix version ".sql" <> ".down.sql"

-- `SELECT EXISTS(… WHERE version = $1)`, also the primary key's test.
unfoldable pub has_version : String → List String → Bool
has_version v [] = false
has_version v (x ∷ xs) = if x == v then true else has_version v xs

-- `ORDER BY version DESC`, in the order of the names' code points.
unfoldable pub newest_first : List String → List String
newest_first versions = order_rows (λ a b. not (text_lt a b)) versions

module _ (E : Engine) where
  open E use {Schema, run}

  -- The schema, and the rows of `schema_migrations` as they were inserted.
  pub record Tables : Type 0 where
    pub schema : Schema
    pub versions : List String

  abbrev pub Database : Type 0
  Database = Session Tables

  unfoldable pub ensure_migrations_table : Exec Database (Unit {0})
  ensure_migrations_table = statement (λ t. (ok tt, t))

  abbrev altered : Option Schema → Sql Tables (Unit {0})
  altered none t = (err malformed, t)
  altered (some schema) t = (ok tt, record t { schema = schema })

  unfoldable pub run_file : String → Exec Database (Unit {0})
  run_file body = statement (λ t. altered (run body t.schema) t)

  abbrev inserted : String → Bool → Sql Tables (Unit {0})
  inserted version true t = (err unique_violation, t)
  inserted version false t = (ok tt, record t { versions = t.versions ++ version ∷ [] })

  unfoldable pub record_version : String → Bool → Exec Database (Unit {0})
  record_version version true = statement (λ t. inserted version (has_version version t.versions) t)
  record_version version false =
      statement
        (λ t. (ok tt, record t { versions = select_rows (λ v. not (v == version)) t.versions }))

  unfoldable pub run_migration : String → String → Bool → Exec Database (Unit {0})
  run_migration version body up = transaction (run_file body >> record_version version up)

  -- One round of the loop in `Migrate`.
  unfoldable pub apply_pending : Files → String → Exec Database (Unit {0})
  apply_pending files name = do
    applied ← statement (λ t. (ok (has_version name t.versions), t))
    choose applied (pure tt) (
        from_option (read_file name files) (raise not_found) (λ body. run_migration name body true))

  unfoldable pub apply_all : Files → List String → Exec Database (Unit {0})
  apply_all files [] = pure tt
  apply_all files (name ∷ names) = apply_pending files name >> apply_all files names

  unfoldable pub migrate : Files → Exec Database (Unit {0})
  migrate files = ensure_migrations_table >> apply_all files (up_migrations files)

  unfoldable pub undo_all : Files → List String → Exec Database (Unit {0})
  undo_all files [] = pure tt
  undo_all files (version ∷ versions) =
      from_option (read_file (down_name version) files) (raise not_found)
        (λ body. run_migration version body false)
      >> undo_all files versions

  unfoldable pub rollback : Files → ℕ → Exec Database (Unit {0})
  rollback files steps = do
    ensure_migrations_table
    versions ← statement (λ t. (ok (take steps (newest_first t.versions)), t))
    undo_all files versions

  unfoldable pub applied_migrations : Exec Database (List String)
  applied_migrations = do
    ensure_migrations_table
    statement (λ t. (ok (newest_first t.versions), t))
