-- ===== src/Lib.antt =====
-- A verification library for simple-ci, a small server for continuous integration. A pipeline is a
-- repository with a script of stages and steps; it runs on an agent, through SSH, or on the
-- controller itself. Users start runs from the pages, by a webhook or by a schedule. Every pipeline
-- has a run queue with one goroutine that takes the runs and processes them, and all that is kept is
-- in an SQLite database.
--
-- The parts, and the code that each is about:
--
--   Base          lists, tests, Go's errors (`internal/service/errors.go`) and `Exec`, the monad of
--                 code that changes a state and returns a value, returns an error or panics
--   Paths         repository directories and host names with their port
--   Script        `internal/service/pipeline_script.go`, and of `internal/service/run_queue.go`
--                 `executePipelineScriptOnAgent`, `executePipelineScriptOnController`,
--                 `executePipelineStepOnAgent` and `executePipelineStepOnController`
--   Store         the rows and the stores of `internal/store`: `Store/Table` is a table with its
--                 generated keys, `Store/Driver` a statement that the database may refuse,
--                 `Store/Runs` the runs, `Store/Tables` the other tables under the constraints of
--                 `internal/assets/migrations`
--   RunQueue      `internal/service/run_queue.go`: `Channels` has `NewRunQueue`, `Enqueue`, `Run` and
--                 `Shutdown` on the channels, `Site` the commands and the reading of the script, and
--                 `Process` has `processRun`, `handleProcessingFailed` and `handleOutput`
--                 `Channels/Cancel` is `cancel_map.go`, and `Clients` is `sse_client_map.go`
--   Security      `internal/security/encryption.go`: hex text around AES-GCM
--   Settings      `internal/settings/settings.go`; `Keys` has the keys of `internal/security` and how
--                 `cmd/simpleci/main.go` comes to them
--   Users         `internal/service/user_service.go`
--   Web           `internal/handler`: the guards of the routes (`middleware.go` and the `Setup…Routes`
--                 functions), `auth.go`, `users.go`, `error.go`, `sse.go`, the page numbers, and
--                 the cookies of `internal/service/cookie_service.go`
--   Fleet         `agent_service.go`, `credential_service.go` and `api_key_service.go` of
--                 `internal/service`, and their handlers in `internal/handler`
--   Pipelines     `internal/service/pipeline_service.go` and `internal/handler/pipelines.go`:
--                 `RunPages` has the pages of runs and `Streams` the streams of events
--   Artifacts     the collection of artifacts in `internal/service/pipeline_service.go`, and their
--                 archive in `internal/util/files.go`
--   Start         `main` of `cmd/simpleci/main.go`, up to the point where it serves requests
--
-- How they interact. A handler of `Web`, `Fleet` or `Pipelines` calls a service; the service calls the
-- statements of `Store` through `statement`, which runs a statement as a whole or refuses it. The run
-- queue is written over any run store that keeps the contract `Store.Runs.Interface.RunStore`;
-- `Store.Runs.Sqlite.Laws` proves it of the SQLite store. `RunQueue.Process` calls `Script` through an
-- executor of steps, and hands the outcome to the store. Names are those of the code in snake case:
-- `processRun` is `process_run`, `RunSQLiteStore.CreatePipelineRun` is `create_pipeline_run`.
--
-- State is passed explicitly. A result is `ok`, `err` or `panic`, and a panic is also what
-- following a nil pointer or sending on a closed channel gives. Where code may block, its step
-- function gives `none` in `RunQueue.Channels`, and so does a call that waits for its own mutex in
-- `Pipelines.Queues`. The goroutine of `Run` and its users move in any order: `Channels.Steps` is
-- the relation of what is reached, and `Clients.Steps` that of the map of clients. The goroutines
-- of a parallel group move by a schedule, which is a list of turns, and every theorem on them is
-- for all schedules.
--
-- Parameters, since their code is not in the repository: bcrypt (`Users.Bcrypt`), AES-GCM
-- (`Security.Gcm`), the encoding of cookies (`Web.Cookies.SecureCookie`), SSH, SFTP, git, the file
-- system, the YAML parser and the outcome of a command (`RunQueue.Site`, `Script.Worker.Attempt`,
-- `Fleet.Ssh`, `Artifacts.Remote.Far`, `Artifacts.Disk`, `Artifacts.Archive.Zip`), the scheduler
-- and the parser of UUIDs (`Pipelines.Schedules.Cron`), the order of the rows that a query gives,
-- the templates, the binding of a request, the random numbers and ids, and the clock.
--
-- Bounds and fuel. Keys, times and counts are natural numbers; keys start at 1, and 64 bits do not
-- run out of them. The loop over the steps of a stage runs on fuel, one round for each step and one to
-- leave the loop; the theorem on `execute_stages` and `run_stages` shows that this is enough. All
-- other loops are by the structure of their lists.
--
-- Not modelled: the templates, the opening and migrating of the database, the encoding of cookies,
-- logging, the JSON of `internal/config.go`, the parameters of the database's address, and the
-- shutdown of the server. Runs keep the id of a pipeline that is deleted, where the database puts
-- null; page numbers below 1 are not represented; a line of `.env` longer than 64 KB is not; data
-- races on the fields of `RunQueue` do not show in the step relations. In `Script` and
-- `RunQueue.Process` commands come back, and sends on `rq.outputCh` and `rq.statusCh` find a
-- receiver; `RunQueue.Clients` shows when one is gone. A run leaves out the name of its pipeline,
-- which the queries of lists add, and that the pipeline of a new run exists is left to the driver,
-- which may refuse it.
pub mod Base
pub mod Paths
pub mod Security
pub mod Settings
pub mod Script
pub mod Store
pub mod RunQueue
pub mod Users
pub mod Web
pub mod Fleet
pub mod Pipelines
pub mod Artifacts
pub mod Start
