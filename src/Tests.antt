-- ===== src/Tests.antt =====
-- Runs of the definitions at fixed inputs, and the theorems at inputs that meet their hypotheses.
mod Retries
mod Streams
mod Timelines
mod Registries
mod Logins
mod Billings
mod Tokens
mod Workspaces
mod Accounts
mod Turns
mod Commands
mod Installs
mod Steers
