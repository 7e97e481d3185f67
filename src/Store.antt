-- ===== src/Store.antt =====
-- internal/adapters/postgres and database/schema.sql: the four tables and the statements of the
-- store. A table is a list of rows; a statement is a function on tables that follows its SQL.
pub mod Table
pub mod Rows
pub mod Scan
pub mod Outbox
pub mod Due
pub mod Identity
pub mod Commands
