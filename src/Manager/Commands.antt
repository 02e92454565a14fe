-- ===== src/Manager/Commands.antt =====
-- What `pause` and `resume` mean for the run that follows.
use tools_tele_t_ng.Base.{
  ltb, count_where, ℕ, ◌≡◌, refl, ap, sym, ◌∙◌, Bool, true, false, not, ◌&&◌, Option, none, some,
  find, IsUnique, find-update_id, subst, ◌==◌, arith,
}
use tools_tele_t_ng.Models.Clock.{Moment}
use tools_tele_t_ng.Models.Status.{
  JobStatus, JobCommand, is_active, is_completed, is_terminal_status,
}
use tools_tele_t_ng.Models.Rows.{Key, Job}
use tools_tele_t_ng.Database.{Db, job_key}
use tools_tele_t_ng.JobRepo.Jobs.{get, clear_requested_command, set_requested_command, mark_started}
use tools_tele_t_ng.JobRepo.JobLease.{is_job_owned_by, has_live_worker_lease}
use tools_tele_t_ng.JobRepo.AccountLeases.{has_live_account_lease_for_job}
use tools_tele_t_ng.JobRepo.Control.{clear_pause_state}
use tools_tele_t_ng.ResultRepo.Items.{has_unfinished_items}
use tools_tele_t_ng.RetryQueue.Schedule.{RetryQueue}
use tools_tele_t_ng.RateLimiter.State.{to_iso}
use tools_tele_t_ng.Worker.Turn.{World}
use tools_tele_t_ng.Worker.Machine.{stopped, polling, normally, turns, at, step}
use tools_tele_t_ng.Worker.Stopping.{pause_db-IsUnique, step-paused, pause_honoured}
use tools_tele_t_ng.Manager.Endings.{conclude-unowned}
use tools_tele_t_ng.Manager.Recovery.{Config, recover, is_stale}
use tools_tele_t_ng.Manager.Settling.{recover-Settled, is_attended}
use tools_tele_t_ng.Manager.Runs.{
  lost_ownership, conclude, paused_job, after_recovery, resume_policy, start_run,
}
use tools_tele_t_ng.Manager.Controller
use tools_tele_t_ng.Manager.Controller.{ok}

-- The row of a resumed job.
resumed_row : Moment → Job → Job
resumed_row now j = record j {
  status = JobStatus.running;
  requested_command = JobCommand.none;
  pause_requested_at = none;
  paused_at = none;
  started_at = some now;
  updated_at = now;
}

resumed_db : Moment → Key → Db → Db
resumed_db now job db =
    mark_started now job (clear_requested_command now job (clear_pause_state now job db))

resumed_db-row :
    (now job : ℕ) (db : Db) (j : Job)
    → find job_key job db.jobs ≡ some j
    → find job_key job (resumed_db now job db).jobs ≡ some (resumed_row now j)
unfolding resumed_db resumed_row mark_started clear_requested_command set_requested_command
    clear_pause_state
resumed_db-row now job db j here =
    let first =
      find-update_id job_key job
        (λ j. record j { pause_requested_at = none; paused_at = none; updated_at = now }) db.jobs j
        (λ j. refl) here in
    let second =
      find-update_id job_key job
        (λ j. record j { requested_command = JobCommand.none; updated_at = now }) _ _ (λ j. refl)
        first in
    find-update_id job_key job
      (λ j. record j {
        status = JobStatus.running;
        requested_command = JobCommand.none;
        started_at = some now;
        updated_at = now;
      })
      _ _ (λ j. refl) second

-- A job without a lease that is resumed: nobody is at work, so the next run first recovers it.
stale_run :
    (ms : ℕ) (c : Config) (auto : Option Bool) (worker job : Key) (db : Db) (j : Job)
    → find job_key job db.jobs ≡ some j
    → is_active j.status ≡ true
    → j.worker_lease_until ≡ none
    → is_attended (to_iso ms) job db ≡ false
    → resume_policy auto c ≡ false
    → start_run ms c auto worker job db ≡ (paused_job, recover (to_iso ms) c job db)
unfolding start_run after_recovery is_stale get
stale_run ms c auto worker job db j here active free idle no_auto =
    let row = ((recover-Settled (to_iso ms) c job db j here).1 idle).1 active in
    rw (start_run, here, active, is_stale, free, after_recovery, row.1, row.2, no_auto) refl

no_live :
    (now job : ℕ) (db : Db) (j : Job)
    → find job_key job db.jobs ≡ some j
    → j.worker_id ≡ none
    → has_live_worker_lease now job db ≡ false
unfolding has_live_worker_lease get
no_live now job db j here unowned = rw (has_live_worker_lease, here, unowned) refl

unattended :
    (ms job : ℕ) (db : Db) (j : Job)
    → find job_key job db.jobs ≡ some j
    → j.worker_id ≡ none
    → has_live_account_lease_for_job (to_iso ms) job db ≡ false
    → is_attended (to_iso ms) job db ≡ false
unattended ms job db j here unowned no_account =
    ground (arith, no_live (to_iso ms) job db j here unowned)

resumed_db-accounts :
    (now later job : ℕ) (db : Db)
    → has_live_account_lease_for_job (to_iso later) job (resumed_db now job db)
      ≡ has_live_account_lease_for_job (to_iso later) job db
unfolding has_live_account_lease_for_job resumed_db mark_started clear_requested_command
    set_requested_command clear_pause_state
resumed_db-accounts now later job db = refl

-- `resume` does not make a job run. Take a job that is not COMPLETED, that no worker and no lease
-- holds, and for which no account lease is live when the next run comes: `resume` succeeds, and that
-- run, unless it resumes paused jobs by itself, takes the resumed job for one whose worker has died,
-- recovers it and refuses it as paused, with the tables as the recovery leaves them.
pub resumed_run_refused :
    (ms later : ℕ) (c : Config) (auto : Option Bool) (worker job : Key) (db : Db) (j : Job)
    → find job_key job db.jobs ≡ some j
    → is_completed j.status ≡ false
    → j.worker_id ≡ none
    → j.worker_lease_until ≡ none
    → has_live_account_lease_for_job (to_iso later) job db ≡ false
    → resume_policy auto c ≡ false
    → (db' : Db) × (Controller.resume (to_iso ms) job db ≡ ok db')
      × (start_run later c auto worker job db' ≡ (paused_job, recover (to_iso later) c job db'))
unfolding Controller.resume get resumed_db resumed_row
resumed_run_refused ms later c auto worker job db j here unfinished unowned free no_account
      no_auto =
    let now = to_iso ms in
    let row = resumed_db-row now job db j here in
    (
      resumed_db now job db,
      rw (Controller.resume, here, unfinished, no_live now job db j here unowned) refl,
      stale_run later c auto worker job (resumed_db now job db) (resumed_row now j) row refl free
          (unattended later job (resumed_db now job db) (resumed_row now j) row unowned
            (resumed_db-accounts now later job db ∙ no_account))
          no_auto,
    )

unowned_row :
    (now job worker : ℕ) (db : Db) (j : Job)
    → find job_key job db.jobs ≡ some j
    → j.worker_id ≡ none
    → is_job_owned_by now job worker db ≡ false
unfolding is_job_owned_by get
unowned_row now job worker db j here free = rw (is_job_owned_by, here, free) refl

-- A pause that is taken when the last item has just been settled makes the run fail: the worker has
-- acknowledged the pause and given its lease away, the job is PAUSED, and the end of the run, which
-- finds nothing left to do and cannot mark the job COMPLETED, is a `LostOwnershipError`.
pause_after_last_item :
    (q : RetryQueue) (ms later job : ℕ) (s : World) (j : Job)
    → IsUnique job_key s.db.jobs
    → s.worker.cancel ≡ false
    → s.worker.cancelled_by_command ≡ false
    → s.worker.paused_on_rate_limit ≡ false
    → find job_key job s.db.jobs ≡ some j
    → j.requested_command ≡ JobCommand.pause
    → j.worker_id ≡ some s.worker.worker_id
    → has_unfinished_items job s.db ≡ false
    → let m = step q job (turns ms) (at polling s) in
      (m.phase ≡ stopped normally)
      × ((j' : Job) × (find job_key job m.world.db.jobs ≡ some j') × (j'.status ≡ JobStatus.paused))
      × ((conclude later job m.world.worker m.world.db).0 ≡ lost_ownership)
unfolding has_unfinished_items
pause_after_last_item q ms later job s j unique live uncancelled unlimited here asked mine settled =
    let m = step q job (turns ms) (at polling s) in
    let ended = step-paused q ms job s j live here asked in
    let honoured = pause_honoured q ms job s j live here asked mine in
    let (j', here', paused, unowned, rest) = honoured.2 in
    (
      ended.0,
      (j', here', paused),
      conclude-unowned later job m.world.worker m.world.db j'
          (subst (λ db. IsUnique job_key db.jobs) (sym ended.1)
            (pause_db-IsUnique ms job s.worker.worker_id s.db unique))
          here' (ended.2 ∙ uncancelled) (ended.3 ∙ unlimited)
          (ap
              (λ items.
                ltb 0
                  (count_where (λ i. (i.job_id == job) && not (is_terminal_status i.status)) items))
              honoured.1
            ∙ settled)
          (unowned_row later job m.world.worker.worker_id m.world.db j' here' unowned),
    )
