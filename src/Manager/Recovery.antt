-- ===== src/Manager/Recovery.antt =====
-- `JobManager.recover`, `recover_all_stale` and `_is_stale`.
use tools_tele_t_ng.Base.{
  ℕ, suc, Bool, true, Option, none, some, List, [], ◌∷◌, ◌==◌, leb, if◌then◌else◌,
}
use tools_tele_t_ng.Models.Clock.{Moment, seconds_until_iso}
use tools_tele_t_ng.Models.Status.{JobStatus, is_active}
use tools_tele_t_ng.Models.Rows.{Key, Job}
use tools_tele_t_ng.Database.{Db}
use tools_tele_t_ng.JobRepo.Jobs.{get, update_status}
use tools_tele_t_ng.JobRepo.JobLease.{
  has_live_worker_lease, clear_worker_ownership, list_running_without_worker,
}
use tools_tele_t_ng.JobRepo.AccountLeases.{has_live_account_lease_for_job, release_account}
use tools_tele_t_ng.Checkpoint.{recover_interrupted}
use tools_tele_t_ng.RetryQueue.Schedule.{RetryQueue}

-- The fields of `Config` that the manager uses; the account key is the hash of the phone, if there
-- is a phone.
pub record Config : Type 0 where
  pub account_key : Option Key
  pub min_request_interval : Option ℕ
  pub retry_queue : RetryQueue
  pub worker_lease_seconds : ℕ
  pub lease_renew_failure_limit : ℕ
  pub lease_takeover_grace_seconds : ℕ
  pub in_flight_recovery_grace_seconds : ℕ
  pub auto_resume : Bool

-- The number that stands for the text "stale".
abbrev pub stale : Key
stale = 1

-- `job.worker_id or "stale"`
abbrev pub worker_or_stale : Option Key → Key
worker_or_stale none = stale
worker_or_stale (some w) = if w == 0 then stale else w

abbrev pub release_stale_account : Moment → Option Key → Job → Db → Db
release_stale_account now none job db = db
release_stale_account now (some a) job db =
    release_account now a (worker_or_stale job.worker_id) (some job.id) db

-- The branch for a job that still says RUNNING or RATE_LIMITED.
unfoldable pub release_stale : Moment → Option Key → Job → Db → Db
release_stale now account job db =
    update_status now job.id JobStatus.paused
      (clear_worker_ownership now job.id (release_stale_account now account job db))

unfoldable pub recover : Moment → Config → Key → Db → Db
unfolding release_stale
recover now c job_id db = elim (get job_id db) [
  | none ↦ db
  | some job ↦
      if has_live_worker_lease now job_id db
      then db
      else if has_live_account_lease_for_job now job_id db
      then db
      else let db' = if is_active job.status then release_stale now c.account_key job db else db in
        (recover_interrupted now job_id c.in_flight_recovery_grace_seconds db').0
]

abbrev recover_each : Moment → Config → List Key → Db × ℕ → Db × ℕ
recover_each now c [] acc = acc
recover_each now c (k ∷ ks) (db, n) = recover_each now c ks (recover now c k db, suc n)

unfoldable pub recover_all_stale : Moment → Config → Db → Db × ℕ
recover_all_stale now c db = recover_each now c (list_running_without_worker now db) (db, 0)

unfoldable pub is_stale : Moment → Job → Bool
is_stale now job = elim job.worker_lease_until [
  | none ↦ true
  | some until ↦ leb (seconds_until_iso now (some until)) 0
]
