-- ===== src/Store.antt =====
-- internal/store: the rows of the SQLite database, the statements of queries.go and the settings.
pub mod Rows
pub mod Jobs
pub mod Config
pub mod Settings
