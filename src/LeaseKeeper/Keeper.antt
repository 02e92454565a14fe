-- ===== src/LeaseKeeper/Keeper.antt =====
-- `LeaseKeeper`. One turn of the heartbeat loop is a function; where a database call raises is an
-- argument of the turn.
use tools_tele_t_ng.Base.{
  ℕ, ◌+◌, ◌*◌, Bool, true, false, not, ◌&&◌, Option, none, some, leb, ◌==◌, if◌then◌else◌,
}
use Prim.Native.Nat.{min, max}
use tools_tele_t_ng.Models.Clock.{Moment}
use tools_tele_t_ng.Models.Rows.{Key}
use tools_tele_t_ng.Database.{Db}
use tools_tele_t_ng.JobRepo.JobLease.{renew_worker, is_job_owned_by}
use tools_tele_t_ng.JobRepo.AccountLeases.{renew_account, is_account_owned_by}

pub record Keeper : Type 0 where
  pub job_id : Key
  pub worker_id : Key
  pub account_key : Option Key
  pub lease_seconds : ℕ
  pub renew_failure_limit : ℕ
  pub ownership_lost : Bool
  pub renew_failures : ℕ

abbrev pub new_keeper : Key → Key → Option Key → ℕ → ℕ → Keeper
new_keeper job_id worker_id account_key lease_seconds limit = record {
  job_id = job_id;
  worker_id = worker_id;
  account_key = account_key;
  lease_seconds = lease_seconds;
  renew_failure_limit = limit;
  ownership_lost = false;
  renew_failures = 0;
}

-- The default interval, `min(max(lease_seconds / 4, 0.25), 10)`, in milliseconds.
unfoldable pub interval : ℕ → ℕ
interval lease_seconds = min (max (lease_seconds * 250) 250) 10000

unfoldable pub ownership_valid : Keeper → Bool
ownership_valid k = not k.ownership_lost

-- `if self._account_key`: neither missing nor empty.
abbrev pub has_account : Option Key → Option Key
has_account none = none
has_account (some account) = if account == 0 then none else some account

-- Which database call of a renewal raises, if any.
pub data Fault : Type 0 where
  no_fault at_job at_account : Fault

abbrev renew_account_part : Moment → Keeper → Db → Db × Bool
renew_account_part now k db = elim (has_account k.account_key) [
  | none ↦ (db, true)
  | some account ↦ renew_account now account k.worker_id k.job_id k.lease_seconds db
]

-- The second lease is renewed also where the first could not be. `false` also stands for a call
-- that raised.
unfoldable pub renew_once : Moment → Fault → Keeper → Db → Db × Bool
unfolding renew_worker renew_account
renew_once now at_job k db = (db, false)
renew_once now at_account k db =
    let (db', _) = renew_worker now k.job_id k.worker_id k.lease_seconds db in
    elim (has_account k.account_key) [
      | some _ ↦ (db', false)
      | none ↦ renew_worker now k.job_id k.worker_id k.lease_seconds db
    ]
renew_once now no_fault k db =
    let (db', ok) = renew_worker now k.job_id k.worker_id k.lease_seconds db in
    let (db'', ok') = renew_account_part now k db' in (db'', ok && ok')

abbrev pub mark_lost : Keeper → Keeper
mark_lost k = record k { ownership_lost = true }

-- What a turn does with the result of the renewal.
unfoldable pub note_renewal : Bool → Keeper → Keeper
note_renewal true k = record k { renew_failures = 0 }
note_renewal false k =
    let k' = record k { renew_failures = k.renew_failures + 1 } in
    if leb k.renew_failure_limit k'.renew_failures then mark_lost k' else k'

-- One turn of `_heartbeat_loop`; the loop has returned once ownership is lost.
unfoldable pub heartbeat : Moment → Fault → Keeper → Db → Keeper × Db
heartbeat now fault k db =
    if k.ownership_lost
    then (k, db)
    else let (db', ok) = renew_once now fault k db in (note_renewal ok k, db')

-- `assert_ownership`: whether it returns, and the keeper that may have been marked.
unfoldable pub assert_ownership : Moment → Keeper → Db → Bool × Keeper
assert_ownership now k db =
    if k.ownership_lost
    then (false, k)
    else if not (is_job_owned_by now k.job_id k.worker_id db)
    then (false, mark_lost k)
    else elim (has_account k.account_key) [
      | none ↦ (true, k)
      | some account ↦
          if is_account_owned_by now account k.worker_id k.job_id db
          then (true, k)
          else (false, mark_lost k)
    ]
