-- ===== src/Tests.antt =====
-- Test data, runs of the handlers on it, and the theorems at inputs that meet their hypotheses.
mod Data
mod Uploads
mod Histories
mod Accounts
mod Payouts
mod Requests
mod Jobs
mod Gateway
mod Dialogues
mod Members
