-- ===== src/Worker/Core.antt =====
-- `Worker`: its state, `claim` and `release`.
use tools_tele_t_ng.Base.{ℕ, Bool, true, false, not, ◌&&◌, Option, none, some, if◌then◌else◌}
use tools_tele_t_ng.Models.Clock.{Moment}
use tools_tele_t_ng.Models.Status.{JobCommand}
use tools_tele_t_ng.Models.Rows.{Key}
use tools_tele_t_ng.Database.{Db}
use tools_tele_t_ng.JobRepo.JobLease.{claim_worker, release_worker}
use tools_tele_t_ng.JobRepo.AccountLeases.{claim_account, release_account}
use tools_tele_t_ng.LeaseKeeper.Keeper.{Keeper, new_keeper, has_account}

pub record Worker : Type 0 where
  pub worker_id : Key
  pub job_id : Option Key
  pub account_key : Option Key
  pub lease_seconds : ℕ
  pub renew_failure_limit : ℕ
  pub takeover_grace_seconds : ℕ
  pub in_flight_recovery_grace_seconds : ℕ
  pub cancel : Bool
  pub command : JobCommand
  pub paused_on_rate_limit : Bool
  pub no_more_items : Bool
  pub claimed_account : Bool
  pub paused_requested : Bool
  pub cancelled_by_command : Bool
  pub lease_keeper : Option Keeper

abbrev pub new_worker : Key → Option Key → ℕ → ℕ → ℕ → ℕ → Worker
new_worker worker_id account lease limit grace recovery_grace = record {
  worker_id = worker_id;
  job_id = none;
  account_key = account;
  lease_seconds = lease;
  renew_failure_limit = limit;
  takeover_grace_seconds = grace;
  in_flight_recovery_grace_seconds = recovery_grace;
  cancel = false;
  command = JobCommand.none;
  paused_on_rate_limit = false;
  no_more_items = false;
  claimed_account = false;
  paused_requested = false;
  cancelled_by_command = false;
  lease_keeper = none;
}

abbrev pub request_cancel : Worker → Worker
request_cancel w = record w { cancel = true }

abbrev pub set_command : JobCommand → Worker → Worker
set_command command w = record w { command = command }

-- How `claim` ends: it returns, or raises one of the two errors.
pub data Claim : Type 0 where
  claimed job_busy account_busy : Claim

-- The worker after a claim that returns.
abbrev pub with_claim : Key → Worker → Worker
with_claim job_id w = record w {
  job_id = some job_id;
  claimed_account = true;
  lease_keeper =
      some (new_keeper job_id w.worker_id w.account_key w.lease_seconds w.renew_failure_limit);
}

abbrev pub claim_account_part : Moment → Key → Worker → Db → Db × Bool
claim_account_part now job_id w db = elim (has_account w.account_key) [
  | none ↦ (db, true)
  | some account ↦
      claim_account now account w.worker_id job_id w.lease_seconds w.takeover_grace_seconds db
]

-- The job is claimed first; where the account is refused the job's lease is given back.
unfoldable pub claim : Moment → Key → Worker → Db → Claim × Worker × Db
claim now job_id w db =
    let w' = record w { job_id = some job_id } in
    let (db', won) =
      claim_worker now job_id w.worker_id w.lease_seconds w.takeover_grace_seconds db in
    let (db'', held) = claim_account_part now job_id w db' in
    if not won
    then (job_busy, w', db')
    else if held
    then (claimed, with_claim job_id w, db'')
    else (account_busy, w', release_worker now job_id w.worker_id db'')

abbrev pub release_account_part : Moment → Bool → Worker → Db → Db
release_account_part now raises w db = elim (has_account w.account_key) [
  | none ↦ db
  | some account ↦
      if w.claimed_account && not raises
      then release_account now account w.worker_id w.job_id db
      else db
]

abbrev pub release_job_part : Moment → Bool → Worker → Db → Db
release_job_part now raises w db = elim w.job_id [
  | none ↦ db
  | some job_id ↦ if raises then db else release_worker now job_id w.worker_id db
]

-- The two releases do not depend on one another: `account_raises` and `job_raises` say which
-- database call raises, and a call that raises changes nothing.
unfoldable pub release : Moment → Bool → Bool → Worker → Db → Db
release now account_raises job_raises w db =
    release_job_part now job_raises w (release_account_part now account_raises w db)
