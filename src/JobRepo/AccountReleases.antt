-- ===== src/JobRepo/AccountReleases.antt =====
-- What a release leaves of an account's lease.
use tools_tele_t_ng.Base.{
  ℕ, ◌≡◌, refl, false, ◌&&◌, some, find, find-key, find-update_where, holds, ◌==◌, arith,
  Option-cases, inl, inr, none,
}
use tools_tele_t_ng.Database.{Db, AccountLease, lease_key}
use tools_tele_t_ng.JobRepo.AccountLeases.{
  get_account, job_guard, release_account, is_account_owned_by,
}

-- A released account is not the worker's for that job, whatever it was before.
pub release_account-unowned :
    (now later account worker job : ℕ) (db : Db)
    → is_account_owned_by later account worker job
        (release_account now account worker (some job) db)
      ≡ false
unfolding is_account_owned_by get_account release_account
release_account-unowned now later account worker job db =
    let p = λ (a : AccountLease).
      (a.account_key == account) && (holds a.worker_id worker && job_guard (some job) a) in
    let f = λ (a : AccountLease). record a {
      worker_id = none;
      worker_heartbeat_at = none;
      worker_lease_until = none;
      job_id = none;
      updated_at = now;
    } in
    elim (Option-cases (find lease_key account db.account_worker_state)) [
      | inl gone ↦
          ground
            (arith, find-update_where lease_key account p f db.account_worker_state (λ a. refl))
      | inr (a, here) ↦ ground (
        arith,
        find-update_where lease_key account p f db.account_worker_state (λ a. refl),
        find-key lease_key account db.account_worker_state a here,
      )
    ]

pub owned_by_accounts :
    (now account worker job : ℕ) (db db' : Db)
    → db'.account_worker_state ≡ db.account_worker_state
    → is_account_owned_by now account worker job db ≡ false
    → is_account_owned_by now account worker job db' ≡ false
unfolding is_account_owned_by get_account
owned_by_accounts now account worker job db db' same e = ground arith
