-- ===== src/Store.antt =====
-- Package store and model (src/server/store, src/server/model): the rows of users.db that decide who
-- may do what. The columns `created_at` and `updated_at`, which nothing reads, and the JSON text of
-- an audit row's details are left out. An instant is a count of nanoseconds from Go's zero time,
-- which stands for SQL's NULL. Statements do not fail for want of a connection.
pub mod Tables
pub mod Orgs
pub mod Members
pub mod Invites
pub mod Tokens
pub mod Domains
pub mod Accounts
