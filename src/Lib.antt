-- ===== src/Lib.antt =====
-- The control plane of ForgeRun, a self-hosted runner of builds: what it promises of jobs, runners,
-- logs and its queue, for every order of requests and every failure of PostgreSQL and Redis; and
-- what its runners, its GitHub clients and its start promise.
--
-- The program. A webhook of GitHub becomes a job, a row of the table `jobs`, and its id goes into a
-- Redis list. The scheduler takes ids from that list, chooses a runner, assigns the job in the
-- database, and puts the id into the runner's mailbox, another Redis list. The runner polls the API,
-- which reads the mailbox for it, and reports the start, the log chunks and the result. A reaper
-- takes jobs away from runners that have been silent. All processes meet in the database and in
-- Redis only, so the model has one state for both, `World`.
--
-- The files and the code.
--   Models          internal/models: the two state machines, Job, Runner, ParseJobStatus, CanRun.
--   Scheduler       internal/scheduler/scheduler.go: Schedule and lessRecentlyUsed.
--   Store           internal/store/store.go over migrations/0001_init.sql and
--                   0002_log_sequence.sql: rows and transactions (Store), SELECT and UPDATE
--                   (Store/Rows, Store/Statements), CreateJob and ListJobs (Store/Creation), the other
--                   methods on jobs (Store/Jobs) and on runners (Store/Runners). Store/Steps,
--                   Store/Grown, Store/Keys, Store/Lawful and Store/History say what the methods
--                   may do to the tables; Store/Transactions and Store/Assignment are about AssignJob,
--                   Store/Columns about what a column INT or TEXT takes,
--                   Store/LogAppends about AppendLogs, Store/Reaping about ReapOfflineRunners,
--                   Store/Candidates about IdleRunners, Store/Changes about transition
--                   and releaseRunner.
--   Queue           internal/queue/redis.go.
--   Service         internal/scheduler/service.go: start, one round of the loop, one reaper tick.
--   Github          internal/github/webhook.go: signatures and payloads.
--   Github/Client, Github/App, Github/Choice
--                   internal/github/client.go and app.go: requests with their retries (send), the App
--                   with its caches, and Configure. Github/Retries is about the retries;
--                   Github/Tokens, Github/Minting and Github/Scopes are about the tokens.
--   Session         a database with tables of any shape, for
--   Migrations      internal/store/migrate.go. Migrations/Agreement, Migrations/Completion and
--                   Migrations/Undoing are about what Migrate and Rollback leave.
--   Config          internal/config/config.go.
--   Commands        cmd/api/main.go; cmd/scheduler/main.go (Commands/Scheduler) over the loop of
--                   internal/scheduler/service.go (Service/Loop); cmd/runner/main.go (Commands/Runner).
--   Runner          what a runner does on its host, as a list of actions: internal/runner/workspace.go
--                   (Runner/Workspace), internal/executor (Runner/Docker), execute of
--                   internal/runner/agent.go (Runner/Agent), and the agent's requests and its active
--                   job (Runner/Protocol, Runner/Posts).
--   Api             internal/api: middleware.go (Api), jobs.go, runners.go and webhook.go.
--                   Api/Results is about the reports of results, Api/Deliveries about webhooks,
--                   Api/Starts about polls and starts, Api/Chunks about log chunks, when PostgreSQL and
--                   Redis do every request. Api/Numbers is about strconv.
--   LogStream       internal/runner/logstream.go.
--   JobSpec         internal/jobspec/jobspec.go. In JobSpec/Entries a map of Go is a quotient of the
--                   lists of its entries.
--   Server          internal/api/server.go: the routes with their checks of credentials, health and
--                   readiness; the request id and the access line of middleware.go. Server/Guarded is
--                   about requests without credentials, Server/Matching about the chosen route.
--   System          the turns that the processes take, and runs of them. System/Builds follows a job
--                   from the queue to its result, System/Push from its webhook on, System/Rescue from
--                   a silent runner on; System/Cancelling follows a cancellation from the API to
--                   the runner, System/Shipping and System/Shipped the output of a build from the
--                   runner to the table, over the HTTP of System/Network. System/Served runs the
--                   server and the scheduler on any sequence of requests, passes and ticks.
--                   System/Forgotten is about the QUEUED jobs and the queue, from Store/Waiting,
--                   Api/Waiting, Service/Waiting and Service/Rescued.
--   Fallible, Exec  Go errors, and methods with state and an error result.
--   Prelude         shared names, tests, lists and texts.
--   Tests           a Redis in memory, and the theorems at concrete values.
--
-- The model. A method of Go is an `Exec S A`: a function from the state to a result and the state
-- that it leaves, also beside an error. Each request to the database or to Redis takes the next
-- `Outcome`: done, refused with nothing changed, or done with the answer lost; past the end of the
-- list every request is done. A SQL statement is a function on the rows of a table, with the unique
-- keys and the foreign key tested where PostgreSQL tests them. A transaction commits all of its
-- statements or none. A turn is a whole handler, round or tick; between turns the clock and the
-- outcomes change in any way. Loops run over lists, and `send` over the number of its attempts, which
-- the code bounds by three. The one fuel is that of strconv.Itoa, the number itself and one more, since
-- each digit leaves a smaller number.
--
-- A runner is a `Work A`: a function from the actions so far, the newest first, to a result and the
-- actions then. What the host, git, Docker and the control plane answer is a function of the actions
-- so far, in the record `Outside`, so that every behaviour of theirs is met; so is the flag that a
-- heartbeat sets when it is told to cancel. Deferred calls are actions after the body. The agent knows
-- its executor as the record `Executor`, whose law the one for Docker fulfils.
--
-- Parameters. Redis is the record `Redis` with the documented effect of LPUSH, LREM, LRANGE, BLMOVE,
-- BRPOP and EXPIRE as laws. HMAC, SHA-256, JSON and YAML are functions in `Crypto` and
-- `Codec` or arguments. `Engine` is what PostgreSQL makes of a file of SQL. `Signer` holds RSA,
-- base64 and the decoding of GitHub's replies, `Environment` the variables and the parsers of
-- numbers, `Surroundings` the connections and the listener of the control plane. Fresh ids, tokens
-- and clone tokens are arguments. Times are microseconds, durations of Go nanoseconds, and
-- both natural numbers; log texts are lists of bytes.
--
-- Not modelled. The steps of two handlers do not interleave within a turn. A mailbox does not expire
-- by time. A job is attempted fewer than 2^31 times. Rows with equal sort keys come in table order.
-- Log lines but the one of each request, sleeps, panic recovery and status reports of the API are left
-- out. The database is in UTF-8. Of the texts of a request only the output and the error of a job may
-- hold a zero character, which no column takes, and a log stays below the gigabyte that a column TEXT
-- can hold. A path with an empty segment, for which ServeMux redirects, has no route in the model. The App's caches are used by
-- one call at a time, which reads the clock once. A second deferred cancel of a context, the
-- removal of a directory or of a container that fails, and the lines that the copying of a build's
-- output can add to the log are not seen. Floating-point numbers are of any type, and the CPUs of a
-- container are given in billionths.
mod Prelude
pub mod Fallible
pub mod Exec
pub mod Models
pub mod Scheduler
pub mod Store
pub mod Queue
pub mod World
pub mod Service
pub mod Github
pub mod Api
pub mod LogStream
pub mod JobSpec
pub mod Server
pub mod System
pub mod Session
pub mod Migrations
pub mod Config
pub mod Runner
pub mod Commands
pub mod Tests
