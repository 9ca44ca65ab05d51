-- ===== src/Lib.antt =====
-- recodarr: a service that re-encodes the media files of Sonarr and Radarr libraries.
--
-- The worker (internal/job) takes jobs from a table of the database (internal/store), decides by a
-- probe (internal/probe) and filters whether a file is worth an encode, runs HandBrakeCLI
-- (internal/handbrake) on it, itself or through an agent, and keeps the result if it is small enough.
--
-- Prelude: texts as lists of bytes, the functions of the packages strings, strconv and
--   path/filepath that the program calls, integers, tests on numbers.
-- Files: the files by path, each with its size.
-- Store: internal/store/queries.go. A table is a list of rows and the next id; a statement is a
--   function on it. Jobs is the table of jobs: Jobs/Ops has one constructor for each statement that
--   changes it, Jobs/Listing is ListJobs. Config has the tables of the instances, the profiles and
--   the tag mappings; Config/Ops their statements, Config/Seed is seed.go. Settings is
--   appsettings.go, with the handler putSettings of internal/api/admin.go.
-- Api: the other handlers of internal/api/admin.go, each a function from the parsed request and the
--   database to an answer (a status code and a body) and the database.
-- Library: internal/api/library.go: the rows of a scan, its cache, the files of an item, and the handler
--   that gives an item a tag. Arr: internal/arr/arr.go, from the decoded answers of Sonarr and Radarr on.
-- Health: internal/health/health.go; the answers of the services to a check are the record Probes, and
--   the life of a checker is a list of ticks and requests. Notify: internal/notify/notify.go.
--   Logging: internal/logging/logging.go.
-- Handbrake: internal/handbrake/handbrake.go and shellsplit.go. A run takes what the process does
--   as a parameter: whether it starts, how it exits, its log, what it leaves at its output path.
-- Audio: internal/audio/bitrates.go. Probe: internal/probe/probe.go, from the parsed JSON on.
-- Worker: internal/job/job.go and filters.go. Filters, Window, Resolve and Report have the
--   decisions; Guard is the loop of encodeOne that encodes and retries; Encode is encodeOne. What
--   other services answer during an encode is the record Situation. Tick is one tick of the worker,
--   and Reconcile (reconcile.go) the scan that inserts jobs, with the answers of others in Scan.
--   Control has what the mutex of the worker guards: the running encodes, the channels of their
--   progress and the ids to be queued again. A step of it is one operation as a whole.
-- Auth: internal/auth/ratelimit.go (Limiter), auth.go (Sessions) and the handlers of
--   internal/api/auth.go (Login). bcrypt and the random tokens are parameters.
-- Agent: internal/agent. Store has the jobs in memory and their manifests on the disk; Runner the
--   encode of a job, the slots and the cleanup; Server the handlers, each a function from a request
--   and the state to a status code and the state; Hash the bytes that are compared. Events is
--   the event stream; the channel of 32 events on which the runner publishes to a listener is a list of
--   the steps that follow the reading of the job. Client is the client (client.go) with its requests:
--   what the network answers is the record Wire. Client/Remote makes it the encoder of the size guard,
--   Client/Hosted puts the runner of the agent at the other end, and Client/Stream its event stream.
-- Tests: the theorems at concrete inputs.
--
-- Numbers that the program keeps in int or int64 and compares only with bounds at or above 0 are
-- natural numbers; sizes are below 2 ^ 63 / 100, where the products of the size guard do not
-- overflow. Times are seconds. A definition that loops recurs on its list, or on fuel: the loop of the
-- size guard has fuel for max_retries + 1 attempts, the scanner of the log a round for each byte.
--
-- Not modelled: HTTP, SQL (a statement is what its text says), JSON, regular expressions, floating
-- point numbers, files of logs and timers; goroutines, but for the order in which operations follow each
-- other (an encode is one sequence of steps); the debug reports of internal/api/admin.go, the client of
-- qBittorrent (internal/qbit), the migrations (internal/store/migrate.go), the metrics, the catalog of
-- encoders, the commands (cmd) and the web interface (web).
pub mod Prelude
pub mod Files
pub mod Store
pub mod Handbrake
pub mod Api
pub mod Arr
pub mod Audio
pub mod Health
pub mod Library
pub mod Logging
pub mod Notify
pub mod Probe
pub mod Worker
pub mod Tests
pub mod Auth
pub mod Agent
