-- ===== src/Database.antt =====
-- telegram_phone_number_checker/database.py: the tables of the schema that the job engine reads and
-- writes, as lists of rows. `jobs` and the two account tables have a primary key, `check_items` an
-- automatic one. A statement and its commit are one step.
use tools_tele_t_ng.Base.{ℕ, Bool, Option, List, [], update_where, count_where, ◌==◌, IsUnique}
use tools_tele_t_ng.Models.Clock.{Moment}
use tools_tele_t_ng.Models.Rows.{Key, Job, CheckItem}

-- `account_worker_state`: which worker holds a Telegram account, and for which job.
pub record AccountLease : Type 0 where
  pub account_key : Key
  pub worker_id : Option Key
  pub worker_heartbeat_at : Option Moment
  pub worker_lease_until : Option Moment
  pub job_id : Option Key
  pub updated_at : Moment

-- `account_runtime_state`: the persisted cooldown of an account.
pub record Cooldown : Type 0 where
  pub account_key : Key
  pub blocked_until : Option Moment
  pub last_request_at : Option Moment
  pub last_rate_limit_at : Option Moment
  pub updated_at : Moment

pub record Db : Type 0 where
  pub jobs : List Job
  pub check_items : List CheckItem
  pub account_worker_state : List AccountLease
  pub account_runtime_state : List Cooldown
  pub next_item_id : ℕ

-- `job.id` and the other keys as functions, to search a table by.
abbrev pub job_key : Job → Key
job_key j = j.id

abbrev pub item_key : CheckItem → ℕ
item_key i = i.id

abbrev pub lease_key : AccountLease → Key
lease_key a = a.account_key

abbrev pub cooldown_key : Cooldown → Key
cooldown_key c = c.account_key

abbrev pub empty_db : Db
empty_db = record {
  jobs = [];
  check_items = [];
  account_worker_state = [];
  account_runtime_state = [];
  next_item_id = 1;
}

-- The primary keys of the schema.
pub record IsKeyed (db : Db) : Type 0 where
  pub jobs_keyed : IsUnique job_key db.jobs
  pub items_keyed : IsUnique item_key db.check_items
  pub accounts_keyed : IsUnique lease_key db.account_worker_state

-- An UPDATE of a table, with the cursor's row count compared to 1.
abbrev pub update_jobs : (Job → Bool) → (Job → Job) → Db → Db
update_jobs p f db = record db { jobs = update_where p f db.jobs }

abbrev pub write_jobs : (Job → Bool) → (Job → Job) → Db → Db × Bool
write_jobs p f db = (update_jobs p f db, count_where p db.jobs == 1)

abbrev pub update_items : (CheckItem → Bool) → (CheckItem → CheckItem) → Db → Db
update_items p f db = record db { check_items = update_where p f db.check_items }

abbrev pub write_items : (CheckItem → Bool) → (CheckItem → CheckItem) → Db → Db × Bool
write_items p f db = (update_items p f db, count_where p db.check_items == 1)

abbrev pub update_accounts : (AccountLease → Bool) → (AccountLease → AccountLease) → Db → Db
update_accounts p f db = record db {
  account_worker_state = update_where p f db.account_worker_state;
}

abbrev pub write_accounts : (AccountLease → Bool) → (AccountLease → AccountLease) → Db → Db × Bool
write_accounts p f db = (update_accounts p f db, count_where p db.account_worker_state == 1)
