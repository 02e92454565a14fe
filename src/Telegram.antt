-- ===== src/Telegram.antt =====
-- telegram_phone_number_checker/telegram_service.py: the classification of Telegram's answers, and
-- the management calls that share an account with the job engine.
pub mod Classify
pub mod Operations
pub mod Lookups
pub mod Leases
