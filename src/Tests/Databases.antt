-- ===== src/Tests/Databases.antt =====
-- The theorems on migrations and on the start of the control plane at concrete values.
use grid_runner.Prelude.{
  ℕ, refl, String, Option, none, some, List, [], ◌∷◌, pos, text_lt, ◌==◌, if◌then◌else◌,
}
use grid_runner.Store.Rows.{order_rows, select_rows}
use grid_runner.Fallible.{ok}
use grid_runner.Store.{refused, done, lost}
use grid_runner.Config.{
  Environment, env, env_int, env_float, env_duration, hostname, load, validate,
}
use grid_runner.Session.{statement, answer, transaction, commit, finish}
use grid_runner.Exec.{◌>>=◌, pure, raise, choose, from_option}
use grid_runner.Migrations.{
  Engine, Files, Tables, Database, migrate, up_migrations, read_file, has_suffix, has_version,
  ensure_migrations_table, run_file, record_version, run_migration, apply_pending, apply_all,
}
use grid_runner.Migrations.Agreement.{Agrees, migrate-Agrees}
use grid_runner.Migrations.Undoing.{tables}
use grid_runner.Session.Effects.{session}
use grid_runner.Github.Choice.{http_client, configure, key_pem, new_app}
use grid_runner.Commands.{Surroundings, IsReady, api_main, api_main-IsReady, serve}

-- A schema is the list of its tables; a file is "+" and a table, or "-" to drop the last one.
abbrev dropped : List String → Option (List String)
dropped [] = none
dropped (t ∷ ts) = some ts

abbrev change : String → List String → Option (List String)
change file ts = if file == "-" then dropped ts else some (file ∷ ts)

abbrev list_engine : Engine
list_engine = record { Schema = List String; run = change }

abbrev two_files : Files
two_files = ("2.sql", "logs") ∷ ("1.sql", "jobs") ∷ ("1.down.sql", "-") ∷ ("2.down.sql", "-") ∷ []

abbrev fresh_tables : Tables list_engine
fresh_tables = tables list_engine [] []

-- The second file runs, and the connection breaks.
abbrev broken : Database list_engine
broken = record {
  tables = fresh_tables;
  outcomes = done ∷ done ∷ done ∷ done ∷ done ∷ lost ∷ done ∷ refused ∷ [];
}

migrate-Agrees_example :
    Agrees list_engine two_files [] (migrate list_engine two_files broken).1.tables
migrate-Agrees_example = migrate-Agrees list_engine two_files [] broken refl

abbrev fresh_session : Database list_engine
fresh_session = session fresh_tables []

abbrev pub plain_environment : Environment ℕ
plain_environment = record {
  getenv = λ key. if key == "GITHUB_TOKEN" then "ghp" else "";
  host = none;
  temp_dir = "/tmp";
  parse_int = λ s. none;
  parse_float = λ s. none;
  parse_duration = λ s. none;
  one = 1;
}

abbrev pub plain_surroundings : Surroundings
plain_surroundings = record {
  connect_postgres = λ url. ok tt;
  connect_redis = λ url. ok tt;
  read = λ path. ok "";
  parse_private_key = λ pem. ok tt;
  listening = none;
  shut_down = ok tt;
}

api_main-IsReady_example :
    IsReady list_engine two_files plain_surroundings
      (load plain_environment)
      (http_client "ghp")
      (api_main list_engine two_files plain_surroundings
        (load plain_environment)
        (pos 0)
        fresh_session).1.tables
unfolding migrate ensure_migrations_table apply_all apply_pending run_migration run_file
    record_version transaction statement answer commit finish has_version read_file up_migrations
    has_suffix text_lt order_rows select_rows ◌>>=◌ pure raise choose from_option api_main serve
    configure key_pem new_app load validate env env_int env_float env_duration hostname
api_main-IsReady_example =
    api_main-IsReady list_engine two_files plain_surroundings (load plain_environment) (pos 0)
      fresh_session (http_client "ghp") ("8080", [], refl)
