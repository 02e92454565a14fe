-- ===== src/Worker.antt =====
-- telegram_phone_number_checker/worker.py: a worker claims a job and an account, takes one item at a
-- time to Telegram, and writes what it learnt under its guards. Time is in milliseconds, as the
-- rate limiter has it; the moments that are stored are `to_iso` of it. The worker has a job
-- repository, as everywhere but in unit tests.
pub mod Core
pub mod Turn
pub mod Request
pub mod Machine
pub mod Ownership
pub mod Release
pub mod Requests
pub mod Answers
pub mod Stopping
pub mod Untouched
pub mod Settled
