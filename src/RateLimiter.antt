-- ===== src/RateLimiter.antt =====
-- telegram_phone_number_checker/rate_limiter.py: pacing of the requests and the persisted cooldown.
-- The limiter's own times are floats: milliseconds here. The table keeps ISO texts to the second.
pub mod State
pub mod Acquire
pub mod Cooldown
