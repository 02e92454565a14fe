-- ===== src/Import.antt =====
-- How jobs come to their items: `_create_job_with_numbers` of telegram_phone_number_checker/main.py,
-- and the distribution of an import over accounts of webapi/routers/jobs.py.
pub mod Create
pub mod Deal
pub mod Contents
pub mod Counted
pub mod Sorting
pub mod Imported
pub mod Dealt
