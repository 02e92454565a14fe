-- ===== src/Manager/Controller.antt =====
-- `JobController`: pause, resume and status.
use tools_tele_t_ng.Base.{ℕ, none, some, if◌then◌else◌}
use tools_tele_t_ng.Models.Clock.{Moment}
use tools_tele_t_ng.Models.Status.{CheckStatus, JobStatus, is_active, is_completed}
use tools_tele_t_ng.Models.Rows.{Key, Job}
use tools_tele_t_ng.Database.{Db}
use tools_tele_t_ng.JobRepo.Jobs.{get, update_status, clear_requested_command, mark_started}
use tools_tele_t_ng.JobRepo.JobLease.{has_live_worker_lease}
use tools_tele_t_ng.JobRepo.Control.{set_pause_requested, clear_pause_state}
use tools_tele_t_ng.ResultRepo.Items.{count_by_status, count_pending_all_statuses}

pub data Refusal : Type 0 where
  unknown_job already_completed job_busy : Refusal

pub data Reply (A : Type 0) : Type 0 where
  ok : A → Reply A
  refused : Refusal → Reply A

pub record Report : Type 0 where
  pub job : Job
  pub found : ℕ
  pub not_discoverable : ℕ
  pub retry_queue : ℕ
  pub errors : ℕ
  pub pending : ℕ

unfoldable pub status : Moment → Key → Db → Reply Report
status now job_id db = elim (get job_id db) [
  | none ↦ refused unknown_job
  | some job ↦ ok (record {
    job = job;
    found = count_by_status job_id CheckStatus.found db;
    not_discoverable = count_by_status job_id CheckStatus.not_discoverable db;
    retry_queue = count_by_status job_id CheckStatus.retry_required db;
    errors = count_by_status job_id CheckStatus.permanent_error db;
    pending = count_pending_all_statuses now job_id db;
  })
]

unfoldable pub pause : Moment → Key → Db → Reply Db
pause now job_id db = elim (get job_id db) [
  | none ↦ refused unknown_job
  | some job ↦
      if is_completed job.status
      then refused already_completed
      else if is_active job.status
      then ok (set_pause_requested now job_id db)
      else ok (clear_pause_state now job_id (update_status now job_id JobStatus.paused db))
]

unfoldable pub resume : Moment → Key → Db → Reply Db
resume now job_id db = elim (get job_id db) [
  | none ↦ refused unknown_job
  | some job ↦
      if is_completed job.status
      then refused already_completed
      else if has_live_worker_lease now job_id db
      then refused job_busy
      else ok (
          mark_started now job_id
            (clear_requested_command now job_id (clear_pause_state now job_id db)))
]
