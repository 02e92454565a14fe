-- ===== src/Tests.antt =====
-- Tests, and the theorems applied at concrete tables.
mod Data
mod Leases
mod Items
mod Policies
mod Workers
mod Runs
mod Lookups
mod Accounts
mod Imports
mod Runners
mod Operators
mod Pages
mod QrLogins
