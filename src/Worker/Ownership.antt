-- ===== src/Worker/Ownership.antt =====
-- What `Worker.claim` leaves a worker with, and what `release` takes back.
use tools_tele_t_ng.Base.{
  subst, ℕ, ◌+◌, ◌≡◌, refl, ◌<◌, ap, sym, ◌∙◌, Bool, true, false, not, ◌&&◌, none, some, find,
  IsUnique, find-update_where, find-key, holds, ◌==◌, if◌then◌else◌, arith, Option-cases, inl, inr,
}
use tools_tele_t_ng.Models.Clock.{Moment}
use tools_tele_t_ng.Models.Rows.{Key, Job}
use tools_tele_t_ng.Database.{Db, IsKeyed, job_key, lease_key}
use tools_tele_t_ng.JobRepo.Jobs.{get}
use tools_tele_t_ng.JobRepo.JobLease.{claim_worker, release_worker, drop_lease, is_job_owned_by}
use tools_tele_t_ng.JobRepo.AccountLeases.{get_account, claim_account, is_account_owned_by}
use tools_tele_t_ng.JobRepo.Exclusion.{lease_cell}
use tools_tele_t_ng.JobRepo.Claims.{claim_worker-Leases}
use tools_tele_t_ng.JobRepo.AccountClaims.{account_cell, claim_account-Leases}
use tools_tele_t_ng.LeaseKeeper.Keeper.{has_account}
use tools_tele_t_ng.Worker.Core.{
  Worker, Claim, claimed, job_busy, account_busy, with_claim, claim_account_part, claim,
}

-- The lease of a job and the table of accounts do not touch one another.
claim_account-jobs :
    (now account worker job lease grace : ℕ) (db : Db)
    → (claim_account now account worker job lease grace db).0.jobs ≡ db.jobs
unfolding claim_account get_account
claim_account-jobs now account worker job lease grace db = ground arith

claim_worker-accounts :
    (now job worker lease grace : ℕ) (db : Db)
    → (claim_worker now job worker lease grace db).0.account_worker_state ≡ db.account_worker_state
unfolding claim_worker get
claim_worker-accounts now job worker lease grace db = ground arith

-- Ownership read off the two cells.
owned_of_cell :
    (now job worker until : ℕ) (db : Db)
    → lease_cell job db ≡ some (some worker, some until)
    → now < until
    → is_job_owned_by now job worker db ≡ true
unfolding is_job_owned_by get
owned_of_cell now job worker until db cell running =
    elim (Option-cases (find job_key job db.jobs)) [
      | inl gone ↦ ground arith
      | inr (j, here) ↦ ground arith
    ]

account_owned_of_cell :
    (now account worker job until : ℕ) (db : Db)
    → account_cell account db ≡ some (some worker, some until, some job)
    → now < until
    → is_account_owned_by now account worker job db ≡ true
unfolding is_account_owned_by get_account
account_owned_of_cell now account worker job until db cell running =
    elim (Option-cases (find lease_key account db.account_worker_state)) [
      | inl gone ↦ ground arith
      | inr (a, here) ↦ ground arith
    ]

-- A released job is not the worker's, whatever it was before.
pub release_worker-unowned :
    (now later job worker : ℕ) (db : Db)
    → is_job_owned_by later job worker (release_worker now job worker db) ≡ false
unfolding is_job_owned_by get release_worker
release_worker-unowned now later job worker db = elim (Option-cases (find job_key job db.jobs)) [
  | inl gone ↦ ground (
    arith,
    find-update_where job_key job (λ j. (j.id == job) && holds j.worker_id worker) (drop_lease now)
        db.jobs (λ j. refl),
  )
  | inr (j, here) ↦ ground (
    arith,
    find-update_where job_key job (λ j. (j.id == job) && holds j.worker_id worker) (drop_lease now)
        db.jobs (λ j. refl),
    find-key job_key job db.jobs j here,
  )
]

-- What the three ends of a claim mean for the database that it leaves.
abbrev pub Claimed : Moment → Key → Worker → Db → Claim × Worker × Db → Type 0
Claimed now job w db (result, w', db') =
    (result ≡ claimed
      → (is_job_owned_by now job w.worker_id db' ≡ true)
        × ((account : Key)
            → has_account w.account_key ≡ some account
            → is_account_owned_by now account w.worker_id job db' ≡ true))
    × (result ≡ account_busy → (later : Moment) → is_job_owned_by later job w.worker_id db' ≡ false)
    × (result ≡ job_busy → db' ≡ db)

module _ (now job : ℕ) (w : Worker) (db : Db) (j : Job) (keyed : IsKeyed db)
    (here : find job_key job db.jobs ≡ some j) (lasting : 0 < w.lease_seconds) where
  job_part : Db × Bool
  job_part = claim_worker now job w.worker_id w.lease_seconds w.takeover_grace_seconds db

  account_part : Key → Db × Bool
  unfolding job_part
  account_part account =
      claim_account now account w.worker_id job w.lease_seconds w.takeover_grace_seconds job_part.0

  job_won :
      job_part.1 ≡ true
      → lease_cell job job_part.0 ≡ some (some w.worker_id, some (now + w.lease_seconds))
  unfolding job_part
  job_won won =
      (claim_worker-Leases now job w.worker_id w.lease_seconds w.takeover_grace_seconds db j
          keyed.jobs_keyed here).1
        won

  job_lost : job_part.1 ≡ false → job_part.0 ≡ db
  unfolding job_part
  job_lost lost =
      (claim_worker-Leases now job w.worker_id w.lease_seconds w.takeover_grace_seconds db j
          keyed.jobs_keyed here).2
        lost

  account_won :
      (account : Key)
      → (account_part account).1 ≡ true
      → account_cell account (account_part account).0
        ≡ some (some w.worker_id, some (now + w.lease_seconds), some job)
  unfolding account_part job_part
  account_won account won =
      (claim_account-Leases now account w.worker_id job w.lease_seconds w.takeover_grace_seconds
          job_part.0
          (subst (IsUnique lease_key)
            (sym (
              claim_worker-accounts now job w.worker_id w.lease_seconds w.takeover_grace_seconds
                db))
            keyed.accounts_keyed)).1
        won

  same_jobs : (account : Key) → (account_part account).0.jobs ≡ job_part.0.jobs
  unfolding account_part
  same_jobs account =
      claim_account-jobs now account w.worker_id job w.lease_seconds w.takeover_grace_seconds
        job_part.0

  owns_after :
      (account : Key)
      → job_part.1 ≡ true
      → is_job_owned_by now job w.worker_id (account_part account).0 ≡ true
  owns_after account won =
      owned_of_cell now job w.worker_id (now + w.lease_seconds) (account_part account).0
        (rw (same_jobs account, lease_cell) (job_won won)) (omega arith)

  -- The account's part of the claim, with or without an account.
  account_step : Db × Bool
  account_step = claim_account_part now job w job_part.0

  Owns : Db → Type 0
  Owns db' =
      (is_job_owned_by now job w.worker_id db' ≡ true)
      × ((account : Key)
          → has_account w.account_key ≡ some account
          → is_account_owned_by now account w.worker_id job db' ≡ true)

  with_account :
      (account : Key)
      → has_account w.account_key ≡ some account
      → account_step ≡ account_part account
  unfolding account_step account_part
  with_account account named = rw (named, claim_account_part)

  without_account : has_account w.account_key ≡ none → account_step ≡ (job_part.0, true)
  unfolding account_step
  without_account e = rw (e, claim_account_part)

  owns_job : job_part.1 ≡ true → is_job_owned_by now job w.worker_id account_step.0 ≡ true
  owns_job won = elim (Option-cases (has_account w.account_key)) [
    | inl e ↦ rw (without_account e) (
        owned_of_cell now job w.worker_id (now + w.lease_seconds) job_part.0 (job_won won)
          (omega arith))
    | inr (account, named) ↦ rw (with_account account named) (owns_after account won)
  ]

  owns_account :
      account_step.1 ≡ true
      → (account : Key) → has_account w.account_key ≡ some account
      → is_account_owned_by now account w.worker_id job account_step.0 ≡ true
  owns_account held account named =
      let same = with_account account named in
      rw same (
        account_owned_of_cell now account w.worker_id job (now + w.lease_seconds)
          (account_part account).0 (account_won account (sym (ap (λ x. x.1) same) ∙ held))
          (omega arith))

  both_won : job_part.1 ≡ true → account_step.1 ≡ true → Owns account_step.0
  unfolding Owns
  both_won won held = (owns_job won, owns_account held)

  resolve :
      (won held : Bool) (db' db'' : Db)
      → (won ≡ true → held ≡ true → Owns db'')
      → (won ≡ false → db' ≡ db)
      → Claimed now job w db (
          if not won
          then (job_busy, record w { job_id = some job }, db')
          else if held
          then (claimed, with_claim job w, db'')
          else (
            account_busy,
            record w { job_id = some job },
            release_worker now job w.worker_id db'',
          ))
  unfolding Owns
  resolve false held db' db'' owns lost =
      (λ e. absurd (ground arith), λ e. absurd (ground arith), λ e. lost refl)
  resolve true true db' db'' owns lost =
      (λ e. owns refl refl, λ e. absurd (ground arith), λ e. absurd (ground arith))
  resolve true false db' db'' owns lost = (
    λ e. absurd (ground arith),
    λ e later. release_worker-unowned now later job w.worker_id db'',
    λ e. absurd (ground arith),
  )

  -- Both leases or none: a claim that returns leaves the worker as the owner of the job and of its
  -- account, if it has one; a claim refused for the account gives the job back; and one refused for
  -- the job changes nothing.
  pub claim-Claimed : Claimed now job w db (claim now job w db)
  unfolding claim job_part account_step
  claim-Claimed = resolve job_part.1 account_step.1 job_part.0 account_step.0 both_won job_lost
