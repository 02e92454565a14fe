-- ===== src/Manager/Starting.antt =====
-- `JobManager.run` starts a worker only where no other one may be at work.
use tools_tele_t_ng.Base.{
  ◌⊎◌, ℕ, ◌≡◌, ◌≢◌, ◌<◌, refl, ap, ◌∙◌, Bool, true, false, not, ◌&&◌, Option, some, find, arith,
  Bool-cases, inl, inr,
}
use tools_tele_t_ng.Models.Status.{is_active, is_paused}
use tools_tele_t_ng.Models.Rows.{Key, Job}
use tools_tele_t_ng.Database.{Db, job_key}
use tools_tele_t_ng.JobRepo.Jobs.{get}
use tools_tele_t_ng.JobRepo.JobLease.{claim_worker, has_live_worker_lease}
use tools_tele_t_ng.RateLimiter.State.{to_iso}
use tools_tele_t_ng.Worker.Core.{Worker, claim, job_busy}
use tools_tele_t_ng.Manager.Recovery.{Config, is_stale}
use tools_tele_t_ng.Manager.Settling.{recover-Settled, is_attended}
use tools_tele_t_ng.Manager.Runs.{
  busy_job, paused_job, worker_for, after_claim, claim_and_start, after_recovery, resume_policy,
  start_run,
}

-- A claim that meets another worker's running lease.
claim-refused :
    (now job : ℕ) (w : Worker) (db : Db) (j : Job) (other until : ℕ)
    → find job_key job db.jobs ≡ some j
    → j.worker_id ≡ some other
    → j.worker_lease_until ≡ some until
    → other ≢ 0
    → other ≢ w.worker_id
    → now < until
    → claim now job w db ≡ (job_busy, record w { job_id = some job }, db)
unfolding claim claim_worker get
claim-refused now job w db j other until here theirs ends named differ running =
    let refused : claim_worker now job w.worker_id w.lease_seconds w.takeover_grace_seconds db
        ≡ (db, false) =
      ground arith in
    rw (claim, refused) refl

live_lease :
    (now job : ℕ) (db : Db) (j : Job) (other until : ℕ)
    → find job_key job db.jobs ≡ some j
    → j.worker_id ≡ some other
    → j.worker_lease_until ≡ some until
    → other ≢ 0
    → now < until
    → is_attended now job db ≡ true
unfolding has_live_worker_lease get
live_lease now job db j other until here theirs ends named running = ground arith

-- No two workers on one job: where the lease of another worker on the job is running, `run` raises,
-- because the job is busy or because it is paused, and changes nothing, whatever the job's status and
-- the policy for paused jobs.
pub start_run_excluded :
    (ms : ℕ) (c : Config) (auto : Option Bool) (worker job : Key) (db : Db) (j : Job)
    (other until : ℕ)
    → find job_key job db.jobs ≡ some j
    → j.worker_id ≡ some other
    → j.worker_lease_until ≡ some until
    → other ≢ 0
    → other ≢ worker
    → to_iso ms < until
    → (start_run ms c auto worker job db ≡ (busy_job, db))
      ⊎ (start_run ms c auto worker job db ≡ (paused_job, db))
unfolding start_run after_recovery claim_and_start after_claim is_stale get
start_run_excluded ms c auto worker job db j other until here theirs ends named differ running =
    let live : is_attended (to_iso ms) job db ≡ true =
      live_lease (to_iso ms) job db j other until here theirs ends named running in
    let kept = (recover-Settled (to_iso ms) c job db j here).0 live in
    let refused =
      claim-refused (to_iso ms) job (worker_for c worker) db j other until here theirs ends named
        differ running in
    let policy = resume_policy auto c in
    elim (Bool-cases (is_active j.status && not (is_stale (to_iso ms) j))) [
      | inl busy ↦ inl (rw (start_run, here, busy) refl)
      | inr quiet ↦
          let same : start_run ms c auto worker job db ≡ after_recovery ms c policy worker job db =
            rw (start_run, here, quiet) (ap (after_recovery ms c policy worker job) kept) in
          elim (Bool-cases (is_paused j.status && not policy)) [
            | inl paused ↦ inr (same ∙ rw (after_recovery, here, paused) refl)
            | inr resumed ↦
                inl (same ∙ rw (after_recovery, here, resumed) (ap (after_claim ms job _) refused))
          ]
    ]
