-- ===== src/Models/Rows.antt =====
-- The dataclasses of telegram_phone_number_checker/models.py, which are the rows of the tables.
use tools_tele_t_ng.Base.{ℕ, Option, String}
use tools_tele_t_ng.Models.Clock.{Moment}
use tools_tele_t_ng.Models.Status.{CheckStatus, JobStatus, JobCommand}

abbrev pub Key : Type 0
Key = ℕ

pub record CheckResponse : Type 0 where
  pub status : CheckStatus
  pub phone : String
  pub telegram_user_id : Option ℕ
  pub username : Option String
  pub first_name : Option String
  pub last_name : Option String
  pub user_was_online : Option String
  pub retry_after_seconds : Option ℕ
  pub error_type : Option String
  pub error_message : Option String
  pub cleanup_error : Option String

-- A row of `check_items`; `cleanup_error` is a column that the dataclass leaves out.
pub record CheckItem : Type 0 where
  pub id : ℕ
  pub job_id : Key
  pub original_phone : String
  pub normalized_phone : Option String
  pub status : CheckStatus
  pub attempt_count : ℕ
  pub max_attempts : ℕ
  pub next_retry_at : Option Moment
  pub last_error_type : Option String
  pub last_error_message : Option String
  pub telegram_user_id : Option ℕ
  pub username : Option String
  pub first_name : Option String
  pub last_name : Option String
  pub user_was_online : Option String
  pub cleanup_error : Option String
  pub created_at : Moment
  pub started_at : Option Moment
  pub completed_at : Option Moment
  pub in_flight_started_at : Option Moment
  pub ownership_lost_at : Option Moment
  pub recovery_after : Option Moment
  pub processing_token : Option Key
  pub updated_at : Moment

pub data JobMode : Type 0 where
  single multi_parent multi_branch : JobMode

pub record Job : Type 0 where
  pub id : Key
  pub name : Option String
  pub status : JobStatus
  pub total_items : ℕ
  pub processed_items : ℕ
  pub found_items : ℕ
  pub retry_items : ℕ
  pub failed_items : ℕ
  pub not_discoverable_items : ℕ
  pub requested_command : JobCommand
  pub worker_heartbeat_at : Option Moment
  pub worker_id : Option Key
  pub worker_lease_until : Option Moment
  pub last_error_type : Option String
  pub last_error_message : Option String
  pub pause_requested_at : Option Moment
  pub paused_at : Option Moment
  pub worker_started_at : Option Moment
  pub telegram_account_phone : Option Key
  pub job_mode : JobMode
  pub parent_job_id : Option Key
  pub created_at : Moment
  pub started_at : Option Moment
  pub finished_at : Option Moment
  pub updated_at : Moment
