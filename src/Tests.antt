-- ===== src/Tests.antt =====
-- Runs of the development's definitions at concrete inputs.
mod Client
mod Fields
mod Connections
mod Cursors
mod Statements
mod Logins
mod Generated
mod Calls
mod Sources
mod Rows
