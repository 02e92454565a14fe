-- ===== src/Models.antt =====
-- telegram_phone_number_checker/models.py: the statuses, the records of a job, of a number to
-- check and of Telegram's answer. Identifiers (job ids, worker ids, account keys, item tokens and
-- phones of accounts) are texts that the code only compares and tests for emptiness: a number
-- stands for each, 0 for the empty text. A moment is an ISO text to the second, in UTC: the number
-- of its seconds, so that the order of the texts is that of the numbers.
pub mod Clock
pub mod Phone
pub mod Status
pub mod Rows
pub mod Privacy
