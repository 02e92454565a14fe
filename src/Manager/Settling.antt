-- ===== src/Manager/Settling.antt =====
-- `JobManager.recover`: what it leaves of a job that nobody works on.
use tools_tele_t_ng.Base.{
  ℕ, ◌≡◌, refl, ap, sym, ◌∙◌, Bool, true, false, ◌||◌, Option, none, some, find, find-update_id,
  find-key, subst, if◌then◌else◌, Bool-cases, inl, inr,
}
use tools_tele_t_ng.Models.Status.{JobStatus, is_active, is_processing}
use tools_tele_t_ng.Models.Clock.{Moment, iso_from_offset}
use tools_tele_t_ng.Models.Rows.{Key, Job}
use tools_tele_t_ng.Database.{Db, job_key}
use tools_tele_t_ng.JobRepo.Stats.{tally}
use tools_tele_t_ng.JobRepo.Jobs.{get, update_status}
use tools_tele_t_ng.JobRepo.JobLease.{has_live_worker_lease, clear_worker_ownership, drop_lease}
use tools_tele_t_ng.JobRepo.AccountLeases.{has_live_account_lease_for_job, release_account}
use tools_tele_t_ng.Checkpoint.{recover_interrupted}
use tools_tele_t_ng.ResultRepo.Claims
use tools_tele_t_ng.ResultRepo.Lifecycle.{recover_interrupted_lem}
use tools_tele_t_ng.Manager.Recovery.{Config, recover, release_stale, release_stale_account}

release_stale_account-jobs :
    (now : Moment) (account : Option Key) (j : Job) (db : Db)
    → (release_stale_account now account j db).jobs ≡ db.jobs
unfolding release_account
release_stale_account-jobs now none j db = refl
release_stale_account-jobs now (some a) j db = refl

-- The row of a stale job: paused, without a lease.
stale_row : Moment → Job → Job
stale_row now j = record (drop_lease now j) { status = JobStatus.paused; updated_at = now }

release_stale-row :
    (now : Moment) (account : Option Key) (j : Job) (db : Db)
    → find job_key j.id db.jobs ≡ some j
    → find job_key j.id (release_stale now account j db).jobs ≡ some (stale_row now j)
unfolding release_stale stale_row update_status clear_worker_ownership
release_stale-row now account j db here =
    let given = release_stale_account now account j db in
    let first =
      find-update_id job_key j.id (drop_lease now) given.jobs j (λ j. refl)
        (ap (find job_key j.id) (release_stale_account-jobs now account j db) ∙ here) in
    find-update_id job_key j.id (λ j. record j { status = JobStatus.paused; updated_at = now })
      (clear_worker_ownership now j.id given).jobs (drop_lease now j) (λ j. refl) first

-- Whether somebody may be at work on the job.
abbrev pub is_attended : Moment → Key → Db → Bool
is_attended now job db =
    has_live_worker_lease now job db || has_live_account_lease_for_job now job db

-- Both ends of `recover` behind the two guards.
unfoldable pub settled : Moment → Config → Key → Job → Db → Db
settled now c job j db = if is_active j.status then release_stale now c.account_key j db else db

pub recover-cases :
    (now : Moment) (c : Config) (job : Key) (db : Db) (j : Job)
    → find job_key job db.jobs ≡ some j
    → recover now c job db ≡ (
        if is_attended now job db
        then db
        else (recover_interrupted now job c.in_flight_recovery_grace_seconds
            (settled now c job j db)).0)
unfolding recover settled get
recover-cases now c job db j here =
    rw (recover, here)
      (elim (Bool-cases (has_live_worker_lease now job db)) [
        | inl live ↦ rw live refl
        | inr dead ↦ rw dead refl
      ])

recover_interrupted-jobs :
    (now job grace : ℕ) (db : Db) → (recover_interrupted now job grace db).0.jobs ≡ db.jobs
unfolding recover_interrupted Claims.recover_interrupted
recover_interrupted-jobs now job grace db = refl

no_processing :
    (now job grace : ℕ) (db : Db)
    → tally job is_processing (recover_interrupted now job grace db).0 ≡ 0
unfolding recover_interrupted
no_processing now job grace db = (recover_interrupted_lem now job (iso_from_offset now grace) db).1

settled-row :
    (now : Moment) (c : Config) (job : Key) (db : Db) (j : Job)
    → find job_key job db.jobs ≡ some j
    → is_active j.status ≡ true
    → find job_key job (settled now c job j db).jobs ≡ some (stale_row now j)
unfolding settled
settled-row now c job db j here active =
    let same = find-key job_key job db.jobs j here in
    rw active (
      subst
        (λ k. find job_key k (release_stale now c.account_key j db).jobs ≡ some (stale_row now j))
        same
        (release_stale-row now c.account_key j db
          (subst (λ k. find job_key k db.jobs ≡ some j) (sym same) here)))

-- Recovery never touches a job that is attended, by a live lease on the job or on an account for it.
-- Of any other job it leaves no item in PROCESSING; if the job said RUNNING or RATE_LIMITED, it is
-- PAUSED and has no owner; and if not, no job changes.
pub recover-Settled :
    (now : Moment) (c : Config) (job : Key) (db : Db) (j : Job)
    → find job_key job db.jobs ≡ some j
    → let db' = recover now c job db in
      (is_attended now job db ≡ true → db' ≡ db)
      × (is_attended now job db ≡ false
          → (tally job is_processing db' ≡ 0)
            × (is_active j.status ≡ true
                → (j' : Job) × (find job_key job db'.jobs ≡ some j')
                  × (j'.status ≡ JobStatus.paused)
                  × (j'.worker_id ≡ none)
                  × (j'.worker_lease_until ≡ none))
            × (is_active j.status ≡ false → db'.jobs ≡ db.jobs))
unfolding stale_row settled
recover-Settled now c job db j here =
    let cases = recover-cases now c job db j here in
    let grace = c.in_flight_recovery_grace_seconds in
    let same = find-key job_key job db.jobs j here in
    (
      λ live. cases ∙ rw live refl,
      λ idle.
          let recovered : recover now c job db
              ≡ (recover_interrupted now job grace (settled now c job j db)).0 =
            cases ∙ rw idle refl in
          rw recovered (
            no_processing now job grace (settled now c job j db),
            λ active. (
              stale_row now j,
              ap (find job_key job)
                    (recover_interrupted-jobs now job grace (settled now c job j db))
                  ∙ settled-row now c job db j here active,
              refl,
              refl,
              refl,
            ),
            λ passive.
                recover_interrupted-jobs now job grace (settled now c job j db)
                ∙ rw (settled, passive) refl,
          ),
    )
