-- ===== src/Persistence.antt =====
-- packages/persistence/src/persistence-worker.ts, over the tables of
-- packages/persistence/migrations. SQLite runs the statements; what they do is written out here: a
-- table is the list of its rows in order of insertion, and an insertion that breaks a constraint of
-- the table throws an error that `translateSqliteError` makes into a storage failure.
pub mod Tables
pub mod Commit
pub mod Inbox
pub mod Worker
pub mod Client
