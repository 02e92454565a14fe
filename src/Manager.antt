-- ===== src/Manager.antt =====
-- telegram_phone_number_checker/job_manager.py: the life of a job around its worker.
pub mod Recovery
pub mod Runs
pub mod Controller
pub mod Settling
pub mod Endings
pub mod Commands
pub mod Starting
pub mod Started
pub mod Completion
