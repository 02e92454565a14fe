-- ===== src/Accounts.antt =====
-- The Telegram accounts of the web interface: repositories/account_repository.py, the login sessions
-- of repositories/persistence_repository.py, and webapi/account_manager.py.
pub mod Tables
pub mod Repository
pub mod Choices
pub mod Defaults
pub mod Logins
pub mod Manager
pub mod Requests
pub mod Active
pub mod Starting
pub mod Waiting
pub mod Overlaps
pub mod Removal
pub mod Sessions
pub mod Installing
pub mod Qr
pub mod QrEntries
pub mod QrStates
