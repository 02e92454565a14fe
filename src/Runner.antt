-- ===== src/Runner.antt =====
-- telegram_phone_number_checker/webapi/runner.py: the jobs that the web interface runs as tasks of
-- one event loop. What stands between two awaits is one step.
pub mod State
pub mod Actions
pub mod Parents
pub mod Cancelling
pub mod Tasks
pub mod Registry
