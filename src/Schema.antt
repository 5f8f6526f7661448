-- ===== src/Schema.antt =====
-- src/persistence/models.py: the tables. Each record is a table's row, with the columns that the
-- code reads or writes; `created_at`, `updated_at`, `started_at`, `recorded_at` and `applied_at`,
-- which the column defaults fill and no statement reads, are left out, and so are `token_usage`
-- and `cost_estimate`, which no statement writes.
mod Values
mod Vocabulary
mod Rows
mod Tables
pub use Values.*
unfoldable pub use Vocabulary.*
pub use Rows.*
pub use Tables.*
