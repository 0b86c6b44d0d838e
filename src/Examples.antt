-- ===== src/Examples.antt =====
-- A small organization, with the operations run on it.
mod Data
mod Domains
mod Schedules
mod Accounts
mod Backups
mod Members
mod Tokens
mod Limits
mod Requests
mod Settings
mod Answers
mod Chains
mod Names
mod Locks
mod Retries
