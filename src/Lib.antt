-- ===== src/Lib.antt =====
-- The Telegram phone number checker. Its job engine takes the numbers of a job to Telegram one at a
-- time, under leases in a database that several processes share, and survives crashes, takeovers,
-- pauses and Telegram's rate limits. Its web interface runs jobs as tasks, splits imports over
-- accounts, and logs accounts and operators in and out.
--
-- Parts and files (paths from the repository's root; the package is telegram_phone_number_checker/):
-- - Base: SQL on tables as lists of rows (Base/Tables, Base/Order), nullable columns (Base/Columns),
--   Boolean tests on numbers (Base/Tests), and the names that all modules share.
-- - Models: models.py, that is statuses and commands (Models/Status), the row dataclasses
--   (Models/Rows), the time helpers (Models/Clock) and `mask_phone` (Models/Phone, Models/Privacy).
-- - Database: the four tables of SCHEMA in database.py that the engine uses, and their primary keys.
-- - JobRepo: repositories/job_repository.py, one function per method under the method's name:
--   JobRepo/Jobs (rows), JobRepo/JobLease (leases of jobs and the writes they guard),
--   JobRepo/AccountLeases (leases of accounts), JobRepo/Control (pause), JobRepo/Stats (counters);
--   JobRepo/Lock has the lease of a job as an abstract lock.
-- - ResultRepo: repositories/result_repository.py: ResultRepo/Items (insert, select, count),
--   ResultRepo/Claims (tokens and quarantine), ResultRepo/Results (`save_result` and its callers).
-- - RetryQueue: retry_queue.py. Checkpoint: checkpoint.py. RateLimiter: rate_limiter.py.
--   LeaseKeeper: lease_keeper.py.
-- - Worker: worker.py: `claim` and `release` (Worker/Core), a turn of the loop (Worker/Turn), a request
--   and its answer (Worker/Request), and `process` as a machine (Worker/Machine).
-- - Manager: job_manager.py: `recover` (Manager/Recovery), `run` (Manager/Runs) and `JobController`
--   (Manager/Controller).
-- - Validation: database_validation.py (Validation/Checks).
-- - Telegram: telegram_service.py: what a lookup makes of an answer (Telegram/Classify), and the
--   management calls that share an account with the engine (Telegram/Operations).
-- - Accounts: the Telegram accounts: their tables (Accounts/Tables),
--   repositories/account_repository.py (Accounts/Repository), the logins and sessions of
--   repositories/persistence_repository.py and telegram_session_store.py (Accounts/Logins), and
--   webapi/account_manager.py (Accounts/Manager, Accounts/Requests, Accounts/Sessions, Accounts/Qr).
-- - Runner: webapi/runner.py: its tasks and summaries (Runner/State), start, pause, resume and cancel
--   (Runner/Actions), and the parents of branches (Runner/Parents).
-- - PhoneUtils: phone_utils.py. Import: the creation of a job with its phones, of main.py
--   (Import/Create), and the import that webapi/routers/jobs.py deals out (Import/Deal).
-- - WebAuth: webapi/auth.py, webapi/routers/auth.py and `require_user` of webapi/deps.py
--   (WebAuth/Logins), on the lock-out (WebAuth/Security) and the web sessions (WebAuth/Sessions) of
--   repositories/persistence_repository.py.
-- - Routes: webapi/routers/jobs.py: what is shown of a job, and its deletion (Routes/Jobs), and the
--   pages of its items (Routes/Items).
-- - Tests: runs of the code at small tables, and the theorems applied there.
-- The manager claims through the worker, the worker through the job repository; the worker's keeper
-- renews the leases that the guards of the result repository's writes read. The runner starts and
-- recovers jobs through the manager and its controller; a management call of an account claims the
-- lease and waits for the cooldown that the engine uses; the account manager asks the job repository
-- whether an account is in use; the import writes through the job and result repositories; the routes
-- read them and the runner's tasks. The other files under these parts hold lemmas and theorems.
--
-- State. `Db` is the shared database; a method is a function from it, the clock's reading and its
-- arguments to the new tables and its result. A statement and its commit are one step, and so are
-- the SELECT and the UPDATE of `claim_worker`. A machine step
-- of the worker is what happens between two awaits, and the event `others` puts in its place any
-- database that other processes may have left. Exceptions are values. Where a database call may raise,
-- an argument says whether it does.
--
-- Conventions. Identifiers (jobs, workers, tokens, accounts) are numbers in the order of their texts, 0
-- the empty text. Stored moments are whole seconds, as the ISO texts are, and compare as the texts do;
-- the worker, the rate limiter and the lock-out read the clock in milliseconds, and `to_iso` is the
-- cut to seconds.
-- Each call reads the clock once. A new token, the random jitter, Telegram's answer, and faults of the
-- database are arguments; the jitter has the bounds of `random.uniform(0.5, 1.0)` as a hypothesis where
-- they matter. New items stand behind all others, so that a selection in table order is one by number.
-- The worker has a job repository, as everywhere but in unit tests. A web request that awaits Telegram
-- is cut there: `elsewhere` is the change that other requests or processes make to the tables
-- meanwhile, and Telegram's answer is an argument. New identifiers of accounts, logins, jobs and web
-- sessions are arguments, and fresh where that matters. What a secret box encrypts stands for what it
-- holds. The phone number library is a record of functions; SQL's LIKE and Python's casefold are
-- arguments.
--
-- Fuel. `acquire` sleeps at most a second at a time: its fuel is the seconds that are left of the
-- block, and one more. The cancellation and the page of a parent recurse into its branches, which are
-- no parents: two levels are enough. Python's `str` of a number has one more than the number. Every
-- other loop is structural; the worker's loop follows the list of events.
--
-- Not modelled: connection, PostgreSQL adapter and migrations of database.py; the calls of the Telethon
-- library in telegram_service.py, and session_importer.py; of webapi/account_manager.py the statuses
-- that are shown; how a password is hashed, and the
-- variant of webapi/auth.py without a database; the remaining routes, which hand over to the
-- repositories; the event hub and the stored settings; the command line, configuration and logging;
-- the exporters; the browser interface under web/; the length of the worker's sleeps, which its
-- machine leaves to the events: there a request may go out at any moment while `acquire` waits, and
-- `acquire` itself is RateLimiter/Acquire.
pub mod Base
pub mod Models
pub mod Database
pub mod JobRepo
pub mod ResultRepo
pub mod RetryQueue
pub mod Checkpoint
pub mod RateLimiter
pub mod LeaseKeeper
pub mod Worker
pub mod Manager
pub mod Validation
pub mod Telegram
pub mod Accounts
pub mod Runner
pub mod PhoneUtils
pub mod Import
pub mod WebAuth
pub mod Routes
pub mod Tests
