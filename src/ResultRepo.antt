-- ===== src/ResultRepo.antt =====
-- telegram_phone_number_checker/repositories/result_repository.py: the numbers of a job, claimed by
-- token and settled under guards.
pub mod Items
pub mod Claims
pub mod Results
pub mod Fencing
pub mod Lifecycle
pub mod Selection
