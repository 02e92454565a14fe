-- ===== src/RetryQueue.antt =====
-- telegram_phone_number_checker/retry_queue.py: the delay before the next attempt, and the end of
-- an item's attempts.
pub mod Policy
pub mod Schedule
pub mod Attempts
