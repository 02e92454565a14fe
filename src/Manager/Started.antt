-- ===== src/Manager/Started.antt =====
-- `JobManager.run`: a run that starts owns its job.
use tools_tele_t_ng.Base.{
  either_branch, ℕ, ◌≡◌, ◌<◌, refl, ap, sym, ◌∙◌, subst, Bool, true, false, not, ◌&&◌, Option, none,
  some, find, find-update_where, update_where-IsUnique, arith, Bool-cases, Option-cases, inl, inr,
}
use tools_tele_t_ng.Models.Clock.{Moment}
use tools_tele_t_ng.Models.Status.{JobStatus, JobCommand, is_active, is_paused}
use tools_tele_t_ng.Models.Rows.{Key, Job}
use tools_tele_t_ng.Database.{Db, IsKeyed, job_key, item_key, lease_key}
use tools_tele_t_ng.JobRepo.Jobs.{get, update_status}
use tools_tele_t_ng.JobRepo.JobLease.{
  owned_row, is_job_owned_by, clear_worker_ownership, mark_started_if_owned,
}
use tools_tele_t_ng.JobRepo.AccountLeases.{release_account}
use tools_tele_t_ng.Checkpoint.{recover_interrupted}
use tools_tele_t_ng.ResultRepo.Claims
use tools_tele_t_ng.RateLimiter.State.{Limiter, to_iso, initialize, new_limiter}
use tools_tele_t_ng.Worker.Core.{Worker, Claim, claimed, job_busy, account_busy, claim}
use tools_tele_t_ng.Worker.Ownership.{claim-Claimed}
use tools_tele_t_ng.Worker.Machine.{Machine}
use tools_tele_t_ng.Manager.Recovery.{Config, recover, release_stale, is_stale}
use tools_tele_t_ng.Manager.Settling.{is_attended, settled, recover-cases}
use tools_tele_t_ng.Manager.Runs.{
  started, worker_for, mark_start, after_claim, claim_and_start, after_recovery, resume_policy,
  start_run,
}

-- The start does not touch the columns of the lease.
mark_started_if_owned-owned :
    (now job worker : ℕ) (db : Db)
    → is_job_owned_by now job worker db ≡ true
    → is_job_owned_by now job worker (mark_started_if_owned now job worker db).0 ≡ true
unfolding is_job_owned_by get mark_started_if_owned
mark_started_if_owned-owned now job worker db owned =
    let f = λ (j : Job). record j {
      status = JobStatus.running;
      requested_command = JobCommand.none;
      started_at = some now;
      updated_at = now;
    } in
    let seen = find-update_where job_key job (owned_row job worker now) f db.jobs (λ j. refl) in
    elim (Option-cases (find job_key job db.jobs)) [
      | inl gone ↦ ground (arith, seen)
      | inr (j, here) ↦ ground (arith, seen)
    ]

after_claim-owned :
    (ms job : ℕ) (limiter : Limiter) (result : Claim) (w : Worker) (db : Db) (m : Machine)
    → (result ≡ claimed → is_job_owned_by (to_iso ms) job w.worker_id db ≡ true)
    → (after_claim ms job limiter (result, w, db)).0 ≡ started m
    → is_job_owned_by (to_iso ms) job w.worker_id m.world.db ≡ true
unfolding after_claim mark_start
after_claim-owned ms job limiter claimed w db m owned e =
    let kept = mark_started_if_owned-owned (to_iso ms) job w.worker_id db (owned refl) in
    elim (Bool-cases (mark_started_if_owned (to_iso ms) job w.worker_id db).1) [
      | inl marked ↦
          let left : m.world.db ≡ (mark_started_if_owned (to_iso ms) job w.worker_id db).0 =
            ground (arith, marked) in
          subst (λ d. is_job_owned_by (to_iso ms) job w.worker_id d ≡ true) (sym left) kept
      | inr missed ↦ absurd (ground (arith, missed))
    ]
after_claim-owned ms job limiter job_busy w db m owned e = absurd (ground arith)
after_claim-owned ms job limiter account_busy w db m owned e = absurd (ground arith)

claim-worker_id :
    (now job : ℕ) (w : Worker) (db : Db) → (claim now job w db).1.worker_id ≡ w.worker_id
unfolding claim
claim-worker_id now job w db = ground arith

release_stale-IsKeyed :
    (now : Moment) (account : Option Key) (j : Job) (db : Db)
    → IsKeyed db
    → IsKeyed (release_stale now account j db)
unfolding release_stale update_status clear_worker_ownership release_account
release_stale-IsKeyed now none j db keyed = record {
  jobs_keyed =
      update_where-IsUnique job_key _ _ _ (λ j. refl)
        (update_where-IsUnique job_key _ _ db.jobs (λ j. refl) keyed.jobs_keyed);
  items_keyed = keyed.items_keyed;
  accounts_keyed = keyed.accounts_keyed;
}
release_stale-IsKeyed now (some a) j db keyed = record {
  jobs_keyed =
      update_where-IsUnique job_key _ _ _ (λ j. refl)
        (update_where-IsUnique job_key _ _ db.jobs (λ j. refl) keyed.jobs_keyed);
  items_keyed = keyed.items_keyed;
  accounts_keyed =
      update_where-IsUnique lease_key _ _ db.account_worker_state (λ a. refl) keyed.accounts_keyed;
}

recover_interrupted-IsKeyed :
    (now job grace : ℕ) (db : Db) → IsKeyed db → IsKeyed (recover_interrupted now job grace db).0
unfolding recover_interrupted Claims.recover_interrupted
recover_interrupted-IsKeyed now job grace db keyed = record {
  jobs_keyed = keyed.jobs_keyed;
  items_keyed = update_where-IsUnique item_key _ _ db.check_items (λ i. refl) keyed.items_keyed;
  accounts_keyed = keyed.accounts_keyed;
}

settled-IsKeyed :
    (now : Moment) (c : Config) (job : Key) (j : Job) (db : Db)
    → IsKeyed db
    → IsKeyed (settled now c job j db)
unfolding settled
settled-IsKeyed now c job j db keyed =
    either_branch IsKeyed (is_active j.status) (release_stale-IsKeyed now c.account_key j db keyed)
      keyed

recover-unknown :
    (now : Moment) (c : Config) (job : Key) (db : Db)
    → find job_key job db.jobs ≡ none
    → recover now c job db ≡ db
unfolding recover get
recover-unknown now c job db gone = rw (recover, gone) refl

recover-IsKeyed :
    (now : Moment) (c : Config) (job : Key) (db : Db) → IsKeyed db → IsKeyed (recover now c job db)
recover-IsKeyed now c job db keyed = elim (Option-cases (find job_key job db.jobs)) [
  | inl gone ↦ subst IsKeyed (sym (recover-unknown now c job db gone)) keyed
  | inr (j, here) ↦ subst IsKeyed (sym (recover-cases now c job db j here)) (
      either_branch IsKeyed (is_attended now job db) keyed (
        recover_interrupted-IsKeyed now job c.in_flight_recovery_grace_seconds
          (settled now c job j db) (settled-IsKeyed now c job j db keyed)))
]

claim_and_start-owned :
    (ms : ℕ) (c : Config) (worker job : Key) (limiter : Limiter) (db : Db) (j : Job) (m : Machine)
    → IsKeyed db
    → find job_key job db.jobs ≡ some j
    → 0 < c.worker_lease_seconds
    → (claim_and_start ms c worker job limiter db).0 ≡ started m
    → is_job_owned_by (to_iso ms) job worker m.world.db ≡ true
unfolding claim_and_start
claim_and_start-owned ms c worker job limiter db j m keyed here lasting e =
    let w = worker_for c worker in
    let r = claim (to_iso ms) job w db in
    let promise = claim-Claimed (to_iso ms) job w db j keyed here lasting in
    let same = claim-worker_id (to_iso ms) job w db in
    subst (λ k. is_job_owned_by (to_iso ms) job k m.world.db ≡ true) same
      (after_claim-owned ms job limiter r.0 r.1 r.2 m
        (λ won.
          subst (λ k. is_job_owned_by (to_iso ms) job k r.2 ≡ true) (sym same) ((promise.0 won).0))
        e)

after_recovery-claims :
    (ms : ℕ) (c : Config) (resume : Bool) (worker job : Key) (db : Db) (j : Job)
    → find job_key job db.jobs ≡ some j
    → (is_paused j.status && not resume) ≡ false
    → after_recovery ms c resume worker job db
      ≡ claim_and_start ms c worker job
          (initialize ms (new_limiter c.min_request_interval c.account_key) db)
          db
unfolding after_recovery get
after_recovery-claims ms c resume worker job db j here resumed =
    rw (after_recovery, here, resumed) refl

after_recovery-owned :
    (ms : ℕ) (c : Config) (resume : Bool) (worker job : Key) (db : Db) (m : Machine)
    → IsKeyed db
    → 0 < c.worker_lease_seconds
    → (after_recovery ms c resume worker job db).0 ≡ started m
    → is_job_owned_by (to_iso ms) job worker m.world.db ≡ true
unfolding after_recovery get
after_recovery-owned ms c resume worker job db m keyed lasting e =
    elim (Option-cases (find job_key job db.jobs)) [
      | inl gone ↦ absurd (ground (arith, gone))
      | inr (j, here) ↦ elim (Bool-cases (is_paused j.status && not resume)) [
        | inl paused ↦ absurd (ground (arith, here, paused))
        | inr open_job ↦
            let limiter = initialize ms (new_limiter c.min_request_interval c.account_key) db in
            claim_and_start-owned ms c worker job limiter db j m keyed here lasting (
              ap (λ r. r.0) (sym (after_recovery-claims ms c resume worker job db j here open_job))
              ∙ e)
      ]
    ]

-- A run that starts owns its job: behind the worker's claim and the mark of the start, the worker's
-- lease on the job is running, whatever the job's status was before, and also where the job had to be
-- recovered first.
pub start_run-owned :
    (ms : ℕ) (c : Config) (auto : Option Bool) (worker job : Key) (db : Db) (m : Machine)
    → IsKeyed db
    → 0 < c.worker_lease_seconds
    → (start_run ms c auto worker job db).0 ≡ started m
    → is_job_owned_by (to_iso ms) job worker m.world.db ≡ true
unfolding start_run get
start_run-owned ms c auto worker job db m keyed lasting e =
    elim (Option-cases (find job_key job db.jobs)) [
      | inl gone ↦ absurd (ground (arith, gone))
      | inr (j, here) ↦ elim (Bool-cases (is_active j.status && not (is_stale (to_iso ms) j))) [
        | inl busy ↦ absurd (ground (arith, here, busy))
        | inr quiet ↦
            let policy = resume_policy auto c in
            let recovered = recover (to_iso ms) c job db in
            let same : start_run ms c auto worker job db
                ≡ after_recovery ms c policy worker job recovered =
              rw (start_run, here, quiet) refl in
            after_recovery-owned ms c policy worker job recovered m
              (recover-IsKeyed (to_iso ms) c job db keyed) lasting (ap (λ r. r.0) (sym same) ∙ e)
      ]
    ]
