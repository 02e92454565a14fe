-- ===== src/Validation.antt =====
-- telegram_phone_number_checker/database_validation.py: the check of a whole database for states that
-- a sound engine does not leave.
pub mod Checks
pub mod Soundness
