-- ===== src/JobRepo/Control.antt =====
-- JobRepository: the persisted pause of a job.
use tools_tele_t_ng.Base.{◌&&◌, ◌||◌, none, some, holds, is_null, ◌==◌}
use tools_tele_t_ng.Models.Clock.{Moment}
use tools_tele_t_ng.Models.Status.{JobStatus, JobCommand}
use tools_tele_t_ng.Models.Rows.{Key}
use tools_tele_t_ng.Database.{Db, update_jobs}

unfoldable pub set_pause_requested : Moment → Key → Db → Db
set_pause_requested now job_id =
    update_jobs (λ j. j.id == job_id)
      (λ j. record j {
        requested_command = JobCommand.pause;
        pause_requested_at = some now;
        updated_at = now;
      })

-- The UPDATE also matches a job that has no worker.
unfoldable pub acknowledge_pause : Moment → Key → Key → Db → Db
acknowledge_pause now job_id worker =
    update_jobs (λ j. (j.id == job_id) && (is_null j.worker_id || holds j.worker_id worker))
      (λ j. record j {
        status = JobStatus.paused;
        requested_command = JobCommand.none;
        paused_at = some now;
        worker_id = none;
        worker_heartbeat_at = none;
        worker_lease_until = none;
        updated_at = now;
      })

unfoldable pub clear_pause_state : Moment → Key → Db → Db
clear_pause_state now job_id =
    update_jobs (λ j. j.id == job_id)
      (λ j. record j { pause_requested_at = none; paused_at = none; updated_at = now })
