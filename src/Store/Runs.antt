-- ===== src/Store/Runs.antt =====
-- `internal/store/run_sqlitestore.go` on the table `runs`, and the interface `RunStore` of
-- `internal/service/pipeline_service.go` with what its clients rely on. A statement that reaches
-- the table succeeds; that the database itself refuses is an error that the interface allows.
pub mod Interface
pub mod Sqlite
pub mod Lists
