-- ===== src/RunQueue.antt =====
-- The run queue of a pipeline: `internal/service/run_queue.go`. `Site` is what a run meets outside
-- the program and the code that talks to it, `Process` takes one run from the queue to its end,
-- and `Lifecycle`, `Frame` and `Passing` are about that.
pub mod Site
pub mod Process
pub mod Channels
pub mod Clients
