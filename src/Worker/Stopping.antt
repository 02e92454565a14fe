-- ===== src/Worker/Stopping.antt =====
-- How the loop of `Worker.process` comes to its end.
use tools_tele_t_ng.Base.{
  IsUnique, update_where-IsUnique, subst, find-update_self, ℕ, ◌≡◌, refl, ap, sym, ◌∙◌, true, false,
  ◌||◌, none, some, List, [], ◌∷◌, find, find-update_id, holds, is_null, arith,
}
use tools_tele_t_ng.Models.Status.{JobStatus, JobCommand}
use tools_tele_t_ng.Models.Rows.{Key, Job}
use tools_tele_t_ng.Database.{Db, job_key}
use tools_tele_t_ng.JobRepo.Jobs.{
  get, get_requested_command, set_requested_command, clear_requested_command,
}
use tools_tele_t_ng.JobRepo.Control.{acknowledge_pause}
use tools_tele_t_ng.RetryQueue.Schedule.{RetryQueue}
use tools_tele_t_ng.RateLimiter.State.{to_iso}
use tools_tele_t_ng.Worker.Core.{Worker}
use tools_tele_t_ng.Worker.Turn.{World, paused, by_command, poll_persisted_command, turn}
use tools_tele_t_ng.Worker.Machine.{
  Machine, Ending, Event, stopped, polling, normally, turns, unblocks, begins, answers, fenced,
  raises, beats, others, at, finish, step, process,
}

stopped_stays :
    (q : RetryQueue) (job : Key) (e : Event) (ending : Ending) (s : World)
    → (step q job e (at (stopped ending) s)).phase ≡ stopped ending
unfolding step
stopped_stays q job (turns ms) ending s = refl
stopped_stays q job (unblocks ms) ending s = refl
stopped_stays q job (begins ms token) ending s = refl
stopped_stays q job (answers ms jitter r) ending s = refl
stopped_stays q job (fenced ms) ending s = refl
stopped_stays q job (raises ms) ending s = refl
stopped_stays q job (beats ms fault) ending s = refl
stopped_stays q job (others db) ending s = refl

-- A loop that has ended takes no further turn.
process-stopped :
    (q : RetryQueue) (job : Key) (es : List Event) (m : Machine) (ending : Ending)
    → m.phase ≡ stopped ending
    → (process q job es m).phase ≡ stopped ending
unfolding process
process-stopped q job [] m ending h = h
process-stopped q job (e ∷ es) m ending h = process-stopped q job es (step q job e m) ending (
    subst (λ phase. (step q job e (at phase m.world)).phase ≡ stopped ending) (sym h)
      (stopped_stays q job e ending m.world))

polled_pause :
    (now job : ℕ) (w : Worker) (db : Db) (j : Job)
    → find job_key job db.jobs ≡ some j
    → j.requested_command ≡ JobCommand.pause
    → poll_persisted_command now job w db
      ≡ (record w { command = JobCommand.pause }, clear_requested_command now job db)
unfolding poll_persisted_command get_requested_command get
polled_pause now job w db j here asked = ground arith

turn-paused :
    (ms job : ℕ) (s : World) (j : Job)
    → find job_key job s.db.jobs ≡ some j
    → j.requested_command ≡ JobCommand.pause
    → turn ms job s ≡ (
      paused,
      record s {
        worker = record (s.worker) { command = JobCommand.none; paused_requested = true };
        db = clear_requested_command (to_iso ms) job s.db;
      },
    )
unfolding turn by_command
turn-paused ms job s j here asked =
    rw (polled_pause (to_iso ms) job s.worker s.db j here asked) refl

-- The database behind a pause that was taken.
unfoldable pub pause_db : ℕ → Key → Key → Db → Db
pause_db ms job worker db =
    acknowledge_pause (to_iso ms) job worker (clear_requested_command (to_iso ms) job db)

pub step-paused :
    (q : RetryQueue) (ms job : ℕ) (s : World) (j : Job)
    → s.worker.cancel ≡ false
    → find job_key job s.db.jobs ≡ some j
    → j.requested_command ≡ JobCommand.pause
    → let m = step q job (turns ms) (at polling s) in
      (m.phase ≡ stopped normally)
      × (m.world.db ≡ pause_db ms job s.worker.worker_id s.db)
      × (m.world.worker.cancelled_by_command ≡ s.worker.cancelled_by_command)
      × (m.world.worker.paused_on_rate_limit ≡ s.worker.paused_on_rate_limit)
unfolding step pause_db finish
step-paused q ms job s j live here asked =
    rw (turn-paused ms job s j here asked, live) (refl, refl, refl, refl)

pub pause_db-IsUnique :
    (ms job worker : ℕ) (db : Db)
    → IsUnique job_key db.jobs
    → IsUnique job_key (pause_db ms job worker db).jobs
unfolding pause_db acknowledge_pause clear_requested_command set_requested_command
pause_db-IsUnique ms job worker db u =
    update_where-IsUnique job_key _ _ _ (λ j. refl)
      (update_where-IsUnique job_key _ _ db.jobs (λ j. refl) u)

paused_row :
    (ms job worker : ℕ) (db : Db) (j : Job)
    → find job_key job db.jobs ≡ some j
    → j.worker_id ≡ some worker
    → (j' : Job) × (find job_key job (pause_db ms job worker db).jobs ≡ some j')
      × (j'.status ≡ JobStatus.paused)
      × (j'.worker_id ≡ none)
      × (j'.requested_command ≡ JobCommand.none)
unfolding pause_db acknowledge_pause clear_requested_command set_requested_command
paused_row ms job worker db j here mine =
    let now = to_iso ms in
    let cleared = λ (j : Job). record j { requested_command = JobCommand.none; updated_at = now } in
    let first = find-update_id job_key job cleared db.jobs j (λ j. refl) here in
    let acknowledged = λ (j : Job). record j {
      status = JobStatus.paused;
      requested_command = JobCommand.none;
      paused_at = some now;
      worker_id = none;
      worker_heartbeat_at = none;
      worker_lease_until = none;
      updated_at = now;
    } in
    let second =
      find-update_self job_key job (λ j. is_null j.worker_id || holds j.worker_id worker)
        acknowledged (clear_requested_command now job db).jobs (cleared j) (λ j. refl) first in
    (acknowledged j, ground (arith, second), refl, refl, refl)

pause_db-items :
    (ms job worker : ℕ) (db : Db) → (pause_db ms job worker db).check_items ≡ db.check_items
unfolding pause_db acknowledge_pause clear_requested_command set_requested_command
pause_db-items ms job worker db = refl

-- A persisted pause is honoured: the next turn of a worker that owns the job ends the loop, and the
-- job is PAUSED, without owner and without a pending command, while no item has changed; whatever
-- happens afterwards, the loop stays ended.
pub pause_honoured :
    (q : RetryQueue) (ms job : ℕ) (s : World) (j : Job)
    → s.worker.cancel ≡ false
    → find job_key job s.db.jobs ≡ some j
    → j.requested_command ≡ JobCommand.pause
    → j.worker_id ≡ some s.worker.worker_id
    → let m = step q job (turns ms) (at polling s) in
      ((es : List Event) → (process q job es m).phase ≡ stopped normally)
      × (m.world.db.check_items ≡ s.db.check_items)
      × ((j' : Job) × (find job_key job m.world.db.jobs ≡ some j')
          × (j'.status ≡ JobStatus.paused)
          × (j'.worker_id ≡ none)
          × (j'.requested_command ≡ JobCommand.none))
pause_honoured q ms job s j live here asked mine =
    let ended = step-paused q ms job s j live here asked in
    (
      λ es. process-stopped q job es (step q job (turns ms) (at polling s)) normally ended.0,
      ap (λ db. db.check_items) ended.1 ∙ pause_db-items ms job s.worker.worker_id s.db,
      rw ended.1 (paused_row ms job s.worker.worker_id s.db j here mine),
    )
