-- ===== src/Manager/Runs.antt =====
-- `JobManager.run`: the checks and claims before the worker starts, the watch over it, and what is
-- made of its end. The `finally` releases the leases in every case.
use tools_tele_t_ng.Base.{
  ℕ, Bool, true, false, not, ◌&&◌, Option, none, some, String, List, [], ◌∷◌, if◌then◌else◌,
}
use tools_tele_t_ng.Models.Clock.{Moment}
use tools_tele_t_ng.Models.Status.{JobStatus, is_active, is_paused, is_pause}
use tools_tele_t_ng.Models.Rows.{Key, Job}
use tools_tele_t_ng.Database.{Db}
use tools_tele_t_ng.JobRepo.Jobs.{get, get_requested_command}
use tools_tele_t_ng.JobRepo.JobLease.{
  update_status_if_owned, record_job_error_if_owned, mark_started_if_owned, mark_finished_if_owned,
  mark_cancelled_if_owned,
}
use tools_tele_t_ng.JobRepo.Stats.{reconcile_stats}
use tools_tele_t_ng.ResultRepo.Items.{has_unfinished_items}
use tools_tele_t_ng.RateLimiter.State.{Limiter, new_limiter, initialize, to_iso}
use tools_tele_t_ng.Worker.Core.{
  Worker, Claim, claimed, job_busy, account_busy, new_worker, claim, release, request_cancel,
}
use tools_tele_t_ng.Worker.Machine.{Machine, Phase, Ending, Event, stopped, polling, at, step}
use tools_tele_t_ng.Manager.Recovery.{Config, recover, is_stale}

-- How far `run` comes before the worker processes items: an exception, or a machine to run.
pub data Start : Type 0 where
  unknown_job busy_job busy_account paused_job lost_job : Start
  started : Machine → Start

abbrev pub worker_for : Config → Key → Worker
worker_for c worker_id =
    new_worker worker_id c.account_key c.worker_lease_seconds c.lease_renew_failure_limit
      c.lease_takeover_grace_seconds c.in_flight_recovery_grace_seconds

-- `mark_started_if_owned`, which the claim has just made possible; else the claims are released.
unfoldable pub mark_start : ℕ → Key → Worker → Limiter → Db → Start × Db
mark_start ms job_id w limiter db =
    let (db', marked) = mark_started_if_owned (to_iso ms) job_id w.worker_id db in
    if marked
    then (started (at polling (record { worker = w; limiter = limiter; db = db' })), db')
    else (lost_job, release (to_iso ms) false false w db')

-- `claim` returns, or its exception leaves `run`.
unfoldable pub after_claim : ℕ → Key → Limiter → Claim × Worker × Db → Start × Db
unfolding mark_start
after_claim ms job_id limiter (claimed, w, db) = mark_start ms job_id w limiter db
after_claim ms job_id limiter (job_busy, w, db) = (busy_job, db)
after_claim ms job_id limiter (account_busy, w, db) = (busy_account, db)

unfoldable pub claim_and_start : ℕ → Config → Key → Key → Limiter → Db → Start × Db
unfolding after_claim
claim_and_start ms c worker_id job_id limiter db =
    after_claim ms job_id limiter (claim (to_iso ms) job_id (worker_for c worker_id) db)

unfoldable pub after_recovery : ℕ → Config → Bool → Key → Key → Db → Start × Db
unfolding claim_and_start
after_recovery ms c resume worker_id job_id db = elim (get job_id db) [
  | none ↦ (unknown_job, db)
  | some job ↦
      let limiter = initialize ms (new_limiter c.min_request_interval c.account_key) db in
      if is_paused job.status && not resume
      then (paused_job, db)
      else claim_and_start ms c worker_id job_id limiter db
]

abbrev pub resume_policy : Option Bool → Config → Bool
resume_policy none c = c.auto_resume
resume_policy (some b) c = b

unfoldable pub start_run : ℕ → Config → Option Bool → Key → Key → Db → Start × Db
unfolding after_recovery
start_run ms c auto_resume worker_id job_id db = elim (get job_id db) [
  | none ↦ (unknown_job, db)
  | some job ↦
      if is_active job.status && not (is_stale (to_iso ms) job)
      then (busy_job, db)
      else after_recovery ms c (resume_policy auto_resume c) worker_id job_id
          (recover (to_iso ms) c job_id db)
]

-- One round of the watch: the counters, then the status, unless a pause is asked for. `false` is
-- the `LostOwnershipError` of a status that could not be written.
unfoldable pub watch : Moment → Key → Worker → Db → Db × Bool
watch now job_id w db =
    let db' = reconcile_stats now job_id db in
    if is_pause (get_requested_command job_id db')
    then (db', true)
    else update_status_if_owned now job_id w.worker_id
        (if w.paused_on_rate_limit then JobStatus.rate_limited else JobStatus.running) db'

-- How `run` ends: it returns a status, or raises.
pub data Finish : Type 0 where
  returns : JobStatus → Finish
  lost_ownership crashed shut_down : Finish

-- A guarded write of the last status that must succeed.
abbrev pub end_with : JobStatus → Db × Bool → Finish × Db
end_with status (db, written) = (if written then returns status else lost_ownership, db)

abbrev pub is_paused_job : Option Job → Bool
is_paused_job none = false
is_paused_job (some job) = is_paused job.status

-- The worker has ended normally.
unfoldable pub conclude : Moment → Key → Worker → Db → Finish × Db
conclude now job_id w db =
    let db' = reconcile_stats now job_id db in
    if w.cancelled_by_command
    then end_with JobStatus.cancelled (mark_cancelled_if_owned now job_id w.worker_id db')
    else if w.paused_on_rate_limit
    then (
      returns JobStatus.rate_limited,
      (update_status_if_owned now job_id w.worker_id JobStatus.rate_limited db').0,
    )
    else if not (has_unfinished_items job_id db')
    then end_with JobStatus.completed (mark_finished_if_owned now job_id w.worker_id db')
    else (
      returns JobStatus.paused,
      if is_paused_job (get job_id db')
          then db'
          else (update_status_if_owned now job_id w.worker_id JobStatus.paused db').0,
    )

-- An exception that is no lost ownership: the job is FAILED and the error recorded, both guarded.
unfoldable pub mark_crashed : Moment → Key → Worker → String → Db → Db
mark_crashed now job_id w trace db =
    let db' = (update_status_if_owned now job_id w.worker_id JobStatus.failed db).0 in
    elim (get job_id db') [
      | none ↦ db'
      | some _ ↦
          (record_job_error_if_owned now job_id w.worker_id "WORKER_CRASH" (some trace) db').0
    ]

-- A run that is under way. `lost` says that the watch has raised.
pub record Run : Type 0 where
  pub machine : Machine
  pub lost : Bool

pub data RunEvent : Type 0 where
  works : Event → RunEvent
  watches : ℕ → RunEvent

abbrev is_stopped : Phase → Bool
is_stopped (stopped _) = true
is_stopped _ = false

-- After the watch has raised, the worker is asked to stop and waited for.
watch_round : ℕ → Key → Run → Run
watch_round ms job_id r =
    let m = r.machine in
    let (db, written) = watch (to_iso ms) job_id m.world.worker m.world.db in
    if is_stopped m.phase
    then r
    else if r.lost
    then r
    else if written
    then record r { machine = record m { world = record (m.world) { db = db } } }
    else record {
      machine = record m {
        world = record (m.world) { worker = request_cancel m.world.worker; db = db };
      };
      lost = true;
    }

unfoldable pub supervise : Config → Key → List RunEvent → Run → Run
unfolding watch_round
supervise c job_id [] r = r
supervise c job_id (works e ∷ es) r =
    supervise c job_id es (record r { machine = step c.retry_queue job_id e r.machine })
supervise c job_id (watches ms ∷ es) r = supervise c job_id es (watch_round ms job_id r)

by_ending : Moment → Key → String → Phase → Worker → Db → Finish × Db
by_ending now job_id trace (stopped Ending.normally) w db = conclude now job_id w db
by_ending now job_id trace (stopped Ending.ownership_lost) w db = (lost_ownership, db)
by_ending now job_id trace (stopped Ending.crashed) w db =
    (crashed, mark_crashed now job_id w trace db)
by_ending now job_id trace _ w db =
    (shut_down, (update_status_if_owned now job_id w.worker_id JobStatus.paused db).0)

-- The handlers, and the release of both leases behind them. A run whose machine has not stopped is
-- cancelled from outside.
unfoldable pub end_run : ℕ → Key → String → Run → Finish × Db
unfolding by_ending
end_run ms job_id trace r =
    let w = r.machine.world.worker in
    let db = r.machine.world.db in
    let (finish, db') =
      (if r.lost
        then (lost_ownership, db)
        else by_ending (to_iso ms) job_id trace r.machine.phase w db) in
    (finish, release (to_iso ms) false false w db')
