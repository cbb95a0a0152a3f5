-- ===== src/Tests/Hosts.antt =====
-- The theorems on a runner's host and on the clients of GitHub at concrete values.
use grid_runner.Prelude.{
  ℕ, ◌≡◌, refl, ◌⊎◌, inl, inr, String, true, false, none, some, [], ◌∷◌, ◌==◌, eq_iff, Bool-cases,
  arith, pos,
}
use grid_runner.Fallible.{ok}
use grid_runner.Config.{Config, load}
use grid_runner.JobSpec.{SpecJob}
use grid_runner.Runner.{gives, Outside, exited, deadline}
use grid_runner.Runner.Workspace.{workspace_dir, Checkout, redact}
use grid_runner.Runner.Workspace.Redaction.{occurs, redact-Hides}
use grid_runner.Runner.Docker.{Request, docker_execute}
use grid_runner.Runner.Docker.Removal.{containers, IsTidy, docker_execute-IsTidy}
use grid_runner.Runner.Agent.{checkout, Delivery, docker_executor, execute, returned}
use grid_runner.Runner.Agent.Traces.{seen}
use grid_runner.Runner.Agent.Outcomes.{IsReported}
use grid_runner.Runner.Agent.Reports.{IsRefused, execute-IsReported, execute-Clears}
use grid_runner.Github.Client.{unreachable, replies, Network, Call, status_call}
use grid_runner.Github.App.{
  Signer, CachedToken, installation_call, AppClient, clone_perms, token, app_clone_token,
  app_set_status, token_call, cached,
}
use grid_runner.Github.Tokens.{HasSources, IsSourced, IsInstalled}
use grid_runner.Github.Scopes.{app_client-HasSources}
use grid_runner.Github.Choice.{clone_token}
use grid_runner.Tests.Values.{waiting_job}
use grid_runner.Tests.Databases.{plain_environment}

abbrev pytest : SpecJob
pytest = record { name = "test"; image = ""; commands = "make" ∷ []; env = []; labels = [] }

-- Everything succeeds, and the build ends with exit code 0.
abbrev calm_host : Outside
calm_host = record {
  make_dir = λ t dir. none;
  run = λ t dir args. (none, "");
  join_path = λ a b. b;
  base64 = λ s. s;
  read = λ t file. gives [];
  list_images = λ t ref. gives 1;
  pull_image = λ t ref. none;
  drain_pull = λ t ref. none;
  show_duration = λ d. "10m0s";
  quoted = λ s. s;
  decode_spec = λ text. some (("test", pytest) ∷ []);
  err_text = λ e. "error";
  create = λ t c. gives "c1";
  start = λ t id. none;
  wait = λ t id. exited (pos 0);
  ask_start = λ t id. none;
  is_abandoned = λ t. false;
}

abbrev plain_delivery : Delivery
plain_delivery = record { job = waiting_job; clone_token = "ghs" }

abbrev plain_config : Config ℕ
plain_config = load plain_environment

execute-IsReported_example :
    ((execute calm_host (docker_executor calm_host) (λ n. n) plain_config plain_delivery []).0
      ≡ returned)
    × (IsRefused calm_host
          (docker_executor calm_host)
          (λ n. n)
          plain_config
          plain_delivery
          []
          (execute calm_host (docker_executor calm_host) (λ n. n) plain_config plain_delivery []).1
        ⊎ IsReported calm_host
            (docker_executor calm_host)
            (λ n. n)
            plain_config
            waiting_job
            (workspace_dir calm_host
              (checkout calm_host (docker_executor calm_host) (λ n. n) plain_config plain_delivery))
            []
            (execute calm_host
              (docker_executor calm_host)
              (λ n. n)
              plain_config
              plain_delivery
              []).1)
execute-IsReported_example =
    execute-IsReported calm_host (docker_executor calm_host) (λ n. n) plain_config plain_delivery []
      (omega arith)

execute-Clears_example :
    ((seen
        (execute calm_host
          (docker_executor calm_host)
          (λ n. n)
          plain_config
          plain_delivery
          []).1).dirs
      ≡ [])
    × (containers
          (execute calm_host (docker_executor calm_host) (λ n. n) plain_config plain_delivery []).1
        ≡ [])
    × ((seen
          (execute calm_host
            (docker_executor calm_host)
            (λ n. n)
            plain_config
            plain_delivery
            []).1).active
        ≡ none)
execute-Clears_example =
    execute-Clears calm_host (docker_executor calm_host) (λ n. n) plain_config plain_delivery []

abbrev plain_request : Request
plain_request = record {
  job = waiting_job;
  spec = pytest;
  workspace = "/tmp/w";
  timeout = pos 1;
  nano_cpus = 1;
  memory_mb = pos 1;
  network = "none";
}

abbrev slow_host : Outside
slow_host = record calm_host { wait = λ t id. deadline; list_images = λ t ref. gives 0 }

docker_execute-IsTidy_example : IsTidy [] (docker_execute slow_host plain_request []).1
docker_execute-IsTidy_example = docker_execute-IsTidy slow_host plain_request []

abbrev plain_checkout : Checkout
plain_checkout = record {
  root = "/tmp";
  job_id = "j1";
  clone_url = "u";
  commit_sha = "0123456789";
  branch = "main";
  token = "ghs";
}

-- No command of git succeeds.
abbrev broken_host : Outside
broken_host = record calm_host { run = λ t dir args. (some "exit status 128", "fatal: ghs") }

redact-Hides_example : occurs "ghs" (redact "a ghs b" "ghs") ≡ false
redact-Hides_example = redact-Hides "a ghs b" "ghs" refl refl

abbrev flaky : Network
flaky = record {
  makes = λ c. true;
  attempts =
      record { cancelled = false; answer = unreachable }
      ∷ record {
        cancelled = false;
        answer = replies (record { code = 429; remaining = "0"; body = [] });
      }
      ∷ record {
        cancelled = false;
        answer = replies (record { code = 201; remaining = "9"; body = [] });
      }
      ∷ [];
  log = [];
}

abbrev plain_call : Call
plain_call = status_call "ghs" "o/r" "0123" "success" [] ""

abbrev plain_signer : Signer
plain_signer = record {
  encode_segment = λ s. s;
  sign = λ s. ok "sig";
  decimal = λ n. "7";
  quoted = λ s. s;
  decode_id = λ body. some 7;
  decode_token = λ body. some ("ghs", 5000);
}

-- The App has one token, for the status of commits.
abbrev plain_app : AppClient
plain_app = record {
  app_id = "1";
  installs = ("o/r", 7) ∷ [];
  token_pool = ("clone:o/r", record { value = "ghs"; expires = 4880 }) ∷ [];
  network = record {
    makes = λ c. true;
    attempts = [];
    log =
        (
          token_call plain_signer "jwt" "o/r" 7 clone_perms,
          replies (record { code = 201; remaining = "9"; body = [] }),
        )
        ∷ (
          installation_call plain_signer "jwt" "o/r",
          replies (record { code = 200; remaining = "9"; body = [] }),
        )
        ∷ [];
  };
}

plain-IsInstalled :
    (repo : String) (install : ℕ)
    → cached repo plain_app.installs ≡ some install
    → IsInstalled plain_signer plain_app.network.log repo install
unfolding cached
plain-IsInstalled repo install found = elim (Bool-cases ("o/r" == repo)) [
  | inl hit ↦
      let this : "o/r" ≡ repo = (eq_iff "o/r" repo).0 hit in
      let id : some 7 ≡ some install = rw hit at found in
      let same : 7 ≡ install = cc in rw (← this) (rw (← same) ("jwt", _, inr (inl refl), refl))
  | inr miss ↦ absurd (let bad : none ≡ some install = rw miss at found in cc)
]

plain-IsSourced :
    (key : String) (t : CachedToken)
    → cached key plain_app.token_pool ≡ some t
    → IsSourced plain_signer plain_app.network.log key t
unfolding cached
plain-IsSourced key t found = elim (Bool-cases ("clone:o/r" == key)) [
  | inl hit ↦
      let this : "clone:o/r" ≡ key = (eq_iff "clone:o/r" key).0 hit in
      let stored : some (record { value = "ghs"; expires = 4880 }) ≡ some t = rw hit at found in
      let same : record { value = "ghs"; expires = 4880 } ≡ t = cc in
      rw (← this) (
        rw (← same) (
          "o/r",
          clone_perms,
          5000,
          inl (refl, refl),
          ("jwt", 7, _, inl refl, refl, ("jwt", _, inr (inl refl), refl)),
          refl,
        ))
  | inr miss ↦ absurd (let bad : none ≡ some t = rw miss at found in cc)
]

plain_app-HasSources : HasSources plain_signer plain_app
plain_app-HasSources = (plain-IsSourced, plain-IsInstalled)

app_client-HasSources_example :
    HasSources plain_signer (app_clone_token plain_signer 10 "o/r" plain_app).1
    × HasSources plain_signer
        (app_set_status plain_signer 10 "o/r" "0123" "success" [] "" plain_app).1
app_client-HasSources_example =
    app_client-HasSources plain_signer 10 "o/r" "0123" "success" "" [] plain_app
      plain_app-HasSources
