-- ===== src/Pipelines.antt =====
-- `PipelineService` of `internal/service/pipeline_service.go`: `Queues` is its map of run queues
-- under the mutex, `Schedules` the rest of its state, and `Requests` the handlers of its pages.
pub mod Queues
pub mod Schedules
pub mod Requests
pub mod RunPages
pub mod Streams
mod Examples
