-- ===== src/JobRepo.antt =====
-- telegram_phone_number_checker/repositories/job_repository.py. Each method is a function of the
-- clock's reading `now`, its arguments and the database; a guarded UPDATE also returns whether its
-- row count was 1. Where a method reads the clock twice in a row the readings are taken to agree.
pub mod Jobs
pub mod JobLease
pub mod AccountLeases
pub mod Control
pub mod Stats
pub mod Exclusion
pub mod Lock
pub mod Claims
pub mod Counters
pub mod AccountClaims
pub mod AccountReleases
pub mod AccountExclusion
