-- ===== src/Worker/Release.antt =====
-- `Worker.release`: the two leases are given back independently of one another.
use tools_tele_t_ng.Base.{
  subst, ℕ, ◌≡◌, ap, sym, ◌∙◌, Bool, true, false, some, arith, Option-cases, inl, inr,
}
use tools_tele_t_ng.Models.Rows.{Key}
use tools_tele_t_ng.Database.{Db}
use tools_tele_t_ng.JobRepo.JobLease.{release_worker, is_job_owned_by}
use tools_tele_t_ng.JobRepo.AccountLeases.{release_account, is_account_owned_by}
use tools_tele_t_ng.JobRepo.AccountReleases.{release_account-unowned, owned_by_accounts}
use tools_tele_t_ng.LeaseKeeper.Keeper.{has_account}
use tools_tele_t_ng.Worker.Core.{Worker, release_account_part, release_job_part, release}
use tools_tele_t_ng.Worker.Ownership.{release_worker-unowned}

release_job_part-accounts :
    (now : ℕ) (raises : Bool) (w : Worker) (db : Db)
    → (release_job_part now raises w db).account_worker_state ≡ db.account_worker_state
unfolding release_worker
release_job_part-accounts now raises w db = elim (Option-cases w.job_id) [
  | inl e ↦ ground arith
  | inr (job, e) ↦ ground arith
]

account_part_lem :
    (now : ℕ) (w : Worker) (db : Db) (job account : Key)
    → w.job_id ≡ some job
    → w.claimed_account ≡ true
    → has_account w.account_key ≡ some account
    → release_account_part now false w db ≡ release_account now account w.worker_id (some job) db
account_part_lem now w db job account e c h = ground arith

job_part_lem :
    (now : ℕ) (w : Worker) (db : Db) (job : Key)
    → w.job_id ≡ some job
    → release_job_part now false w db ≡ release_worker now job w.worker_id db
job_part_lem now w db job e = ground arith

-- A release gives back both leases, each also where the database call for the other one raises:
-- afterwards the worker does not own the job, and not the account that it claimed for the job, at any
-- moment.
pub release-Released :
    (now later : ℕ) (account_raises job_raises : Bool) (w : Worker) (db : Db) (job : Key)
    → w.job_id ≡ some job
    → let db' = release now account_raises job_raises w db in
      (job_raises ≡ false → is_job_owned_by later job w.worker_id db' ≡ false)
      × (account_raises ≡ false
          → w.claimed_account ≡ true
          → (account : Key) → has_account w.account_key ≡ some account
          → is_account_owned_by later account w.worker_id job db' ≡ false)
unfolding release
release-Released now later account_raises job_raises w db job e = (
  λ fine.
      let given = release_account_part now account_raises w db in
      subst (λ r. is_job_owned_by later job w.worker_id (release_job_part now r w given) ≡ false)
        (sym fine)
        (rw (job_part_lem now w given job e)
          (release_worker-unowned now later job w.worker_id given)),
  λ fine claimed account named.
      let given = release_account_part now account_raises w db in
      let given_lem : given ≡ release_account now account w.worker_id (some job) db =
        ap (λ r. release_account_part now r w db) fine
        ∙ account_part_lem now w db job account e claimed named in
      owned_by_accounts later account w.worker_id job given _
        (release_job_part-accounts now job_raises w given)
        (subst (λ d. is_account_owned_by later account w.worker_id job d ≡ false) (sym given_lem)
          (release_account-unowned now later account w.worker_id job db)),
)
