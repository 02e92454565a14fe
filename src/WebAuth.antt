-- ===== src/WebAuth.antt =====
-- The operators of the web interface: webapi/auth.py on a database, with the web sessions and the
-- lock-out of repositories/persistence_repository.py, and webapi/routers/auth.py. Whether a password
-- is right is an argument.
pub mod Security
pub mod Sessions
pub mod Logins
pub mod Lockout
pub mod Lifetime
