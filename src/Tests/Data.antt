-- ===== src/Tests/Data.antt =====
-- The job 7 with its worker 11 and the account 5, in a few small tables.
use tools_tele_t_ng.Base.{refl, false, none, some, [], ◌∷◌, IsUnique}
use tools_tele_t_ng.Models.Status.{CheckStatus, JobStatus, JobCommand}
use tools_tele_t_ng.Models.Rows.{Job, JobMode, CheckItem, CheckResponse}
use tools_tele_t_ng.Database.{Db, IsKeyed, AccountLease, empty_db, job_key, item_key, lease_key}
use tools_tele_t_ng.JobRepo.Jobs.{new_job}
use tools_tele_t_ng.JobRepo.AccountLeases.{account_lease}
use tools_tele_t_ng.ResultRepo.Items.{blank_item}
use tools_tele_t_ng.ResultRepo.Claims.{claim_row}
use tools_tele_t_ng.LeaseKeeper.Keeper.{Keeper, new_keeper}
use tools_tele_t_ng.RateLimiter.State.{Limiter, new_limiter}
use tools_tele_t_ng.RetryQueue.Schedule.{RetryQueue}
use tools_tele_t_ng.Worker.Core.{Worker, new_worker, with_claim}
use tools_tele_t_ng.Worker.Turn.{World}
use tools_tele_t_ng.Manager.Recovery.{Config}

abbrev pub free_job : Job
free_job = new_job 0 7 none 1 none JobMode.single none

abbrev pub held_job : Job
held_job = record free_job {
  status = JobStatus.running;
  worker_id = some 11;
  worker_lease_until = some 100;
}

abbrev pub pausing_job : Job
pausing_job = record held_job { requested_command = JobCommand.pause }

abbrev pub waiting : CheckItem
waiting = blank_item 0 1 7 "+84912345678"

abbrev pub in_work : CheckItem
in_work = claim_row 0 21 waiting

abbrev pub settled : CheckItem
settled = record waiting { status = CheckStatus.found }

abbrev pub account : AccountLease
account = account_lease 0 100 5 11 7

abbrev pub tables : Job → CheckItem → Db
tables j i = record empty_db {
  jobs = j ∷ [];
  check_items = i ∷ [];
  account_worker_state = account ∷ [];
  next_item_id = 2;
}

abbrev pub without_account : Job → CheckItem → Db
without_account j i = record (tables j i) { account_worker_state = [] }

abbrev pub one_job : (j : Job) → IsUnique job_key (j ∷ [])
one_job j = (refl, tt)

abbrev pub one_item : (i : CheckItem) → IsUnique item_key (i ∷ [])
one_item i = (refl, tt)

abbrev pub one_account : IsUnique lease_key (account ∷ [])
one_account = (refl, tt)

abbrev pub keyed : (j : Job) (i : CheckItem) → IsKeyed (without_account j i)
keyed j i = record { jobs_keyed = one_job j; items_keyed = one_item i; accounts_keyed = tt }

abbrev pub worker : Worker
worker = new_worker 11 (some 5) 60 3 2 30

abbrev pub at_work : Worker
at_work = with_claim 7 worker

abbrev pub keeper : Keeper
keeper = new_keeper 7 11 (some 5) 60 3

abbrev pub limiter : Limiter
limiter = new_limiter none (some 5)

abbrev pub queue : RetryQueue
queue = record { max_attempts = 5; base_delay = 30; max_delay = 3600 }

abbrev pub world : Db → World
world db = record { worker = at_work; limiter = limiter; db = db }

abbrev pub config : Config
config = record {
  account_key = some 5;
  min_request_interval = none;
  retry_queue = queue;
  worker_lease_seconds = 60;
  lease_renew_failure_limit = 3;
  lease_takeover_grace_seconds = 2;
  in_flight_recovery_grace_seconds = 30;
  auto_resume = false;
}

abbrev pub found_answer : CheckResponse
found_answer = record {
  status = CheckStatus.found;
  phone = "+84912345678";
  telegram_user_id = some 99;
  username = some "a";
  first_name = none;
  last_name = none;
  user_was_online = none;
  retry_after_seconds = none;
  error_type = none;
  error_message = none;
  cleanup_error = none;
}
