-- ===== src/Tests/Values.antt =====
-- A job, a runner and a request, on which the theorems are applied.
use grid_runner.Prelude.{false, none, some, [], ◌∷◌}
use grid_runner.Models.{Job, Runner, queued, running, idle, busy}
use grid_runner.Store.{JobRow, RunnerRow}
use grid_runner.Github.{Crypto, PushPayload}
use grid_runner.Api.{Codec, Request}
use grid_runner.World.{World}
use grid_runner.World.Calm.{calm}
use grid_runner.Tests.ListRedis.{list_redis, Lists}

abbrev pub waiting_job : Job
waiting_job = record {
  id = "j1";
  repository = "o/r";
  clone_url = "https://example.org/o/r.git";
  commit_sha = "0123456789012345678901234567890123456789";
  branch = "main";
  event_type = "push";
  config_ref = "forgerun.yml";
  labels = "linux" ∷ "docker" ∷ [];
  status = queued;
  runner_id = none;
  attempts = 0;
  exit_code = none;
  error = "";
  created_at = 0;
  started_at = none;
  completed_at = none;
}

abbrev pub waiting_row : JobRow
waiting_row = record { job = waiting_job; logs = []; log_seq = 0 }

-- The job while the runner r1 runs it, after three chunks of log.
abbrev pub running_row : JobRow
running_row = record {
  job = record waiting_job {
    status = running;
    runner_id = some "r1";
    attempts = 1;
    started_at = some 1;
  };
  logs = 104 ∷ 105 ∷ 106 ∷ [];
  log_seq = 3;
}

abbrev pub idle_runner : Runner
idle_runner = record {
  id = "r1";
  name = "one";
  status = idle;
  labels = "docker" ∷ "linux" ∷ [];
  architecture = "amd64";
  os = "linux";
  current_job_id = none;
  last_heartbeat = 0;
  last_assigned = none;
  created_at = 0;
}

abbrev pub idle_row : RunnerRow
idle_row = record { runner = idle_runner; token_hash = "Bearer t" }

abbrev pub busy_row : RunnerRow
busy_row = record {
  runner = record idle_runner { status = busy; current_job_id = some "j1" };
  token_hash = "t";
}

abbrev pub empty_lists : Lists
empty_lists key = []

-- The job runs on r1.
abbrev pub running_world : World
running_world = calm (running_row ∷ []) (busy_row ∷ []) 9 empty_lists

abbrev pub push_payload : PushPayload
push_payload = record {
  ref = "refs/heads/main";
  after = "0123456789012345678901234567890123456789";
  deleted = false;
  full_name = "o/r";
  clone_url = "https://example.org/o/r.git";
}

-- Every body has the digest 1, 2, and is one push.
abbrev pub plain_crypto : Crypto
plain_crypto = record {
  hmac_sha256 = λ secret body. 1 ∷ 2 ∷ [];
  decode_push = λ body. some push_payload;
  decode_pull_request = λ body. none;
}

-- A digest that gives the token back.
abbrev pub plain_codec : Codec
plain_codec = record {
  crypto = plain_crypto;
  sha256_hex = λ token. token;
  decode_register = λ limit body. none;
  decode_heartbeat = λ limit body. none;
  decode_result = λ limit body. none;
}

-- The runner r2 asks about the job j1.
abbrev pub request : Request
request = record {
  path_id = "j1";
  runner_id = "r2";
  authorization = "Bearer t";
  registration_token = "";
  log_seq = "1";
  signature = "";
  event = "push";
  limit = "";
  body = [];
}
