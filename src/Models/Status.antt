-- ===== src/Models/Status.antt =====
-- The enumerations of telegram_phone_number_checker/models.py and its two sets of statuses.
use tools_tele_t_ng.Base.{ℕ, ◌==◌, Bool, true, false, String}

pub data CheckStatus : Type 0 where
  pending processing in_flight_unknown found not_discoverable retry_required rate_limited :
      CheckStatus
  temporary_error permanent_error completed : CheckStatus

pub data JobStatus : Type 0 where
  created running paused rate_limited completed failed cancelled : JobStatus

pub data JobCommand : Type 0 where
  none pause resume cancel : JobCommand

pub data ErrorType : Type 0 where
  none worker_interrupted retry_exhausted invalid_phone invalid_format network_timeout : ErrorType
  connection_reset telegram_error database_locked cleanup_failed flood_wait unknown : ErrorType

-- `ErrorType.….value`
unfoldable pub error_text : ErrorType → String
error_text ErrorType.none = "NONE"
error_text ErrorType.worker_interrupted = "WORKER_INTERRUPTED"
error_text ErrorType.retry_exhausted = "RETRY_EXHAUSTED"
error_text ErrorType.invalid_phone = "INVALID_PHONE"
error_text ErrorType.invalid_format = "INVALID_FORMAT"
error_text ErrorType.network_timeout = "NETWORK_TIMEOUT"
error_text ErrorType.connection_reset = "CONNECTION_RESET"
error_text ErrorType.telegram_error = "TELEGRAM_ERROR"
error_text ErrorType.database_locked = "DATABASE_LOCKED"
error_text ErrorType.cleanup_failed = "CLEANUP_FAILED"
error_text ErrorType.flood_wait = "FLOOD_WAIT"
error_text ErrorType.unknown = "UNKNOWN"

-- Membership in TERMINAL_STATUSES.
abbrev pub is_terminal_status : CheckStatus → Bool
is_terminal_status CheckStatus.found = true
is_terminal_status CheckStatus.not_discoverable = true
is_terminal_status CheckStatus.permanent_error = true
is_terminal_status _ = false

-- Membership in NON_TERMINAL_STATUSES.
abbrev pub is_non_terminal_status : CheckStatus → Bool
is_non_terminal_status CheckStatus.pending = true
is_non_terminal_status CheckStatus.processing = true
is_non_terminal_status CheckStatus.in_flight_unknown = true
is_non_terminal_status CheckStatus.retry_required = true
is_non_terminal_status CheckStatus.temporary_error = true
is_non_terminal_status CheckStatus.rate_limited = true
is_non_terminal_status _ = false

-- `status IN ('PENDING','RETRY_REQUIRED','TEMPORARY_ERROR')`
abbrev pub is_waiting_status : CheckStatus → Bool
is_waiting_status CheckStatus.pending = true
is_waiting_status CheckStatus.retry_required = true
is_waiting_status CheckStatus.temporary_error = true
is_waiting_status _ = false

-- `status IN ('RETRY_REQUIRED','TEMPORARY_ERROR','RATE_LIMITED')`
abbrev pub is_retry_status : CheckStatus → Bool
is_retry_status CheckStatus.retry_required = true
is_retry_status CheckStatus.temporary_error = true
is_retry_status CheckStatus.rate_limited = true
is_retry_status _ = false

-- The statuses numbered, to compare two of them.
abbrev pub status_code : CheckStatus → ℕ
status_code CheckStatus.pending = 0
status_code CheckStatus.processing = 1
status_code CheckStatus.in_flight_unknown = 2
status_code CheckStatus.found = 3
status_code CheckStatus.not_discoverable = 4
status_code CheckStatus.retry_required = 5
status_code CheckStatus.rate_limited = 6
status_code CheckStatus.temporary_error = 7
status_code CheckStatus.permanent_error = 8
status_code CheckStatus.completed = 9

abbrev pub same_status : CheckStatus → CheckStatus → Bool
same_status a b = status_code a == status_code b

abbrev pub is_found : CheckStatus → Bool
is_found CheckStatus.found = true
is_found _ = false

abbrev pub is_not_discoverable : CheckStatus → Bool
is_not_discoverable CheckStatus.not_discoverable = true
is_not_discoverable _ = false

abbrev pub is_permanent_error : CheckStatus → Bool
is_permanent_error CheckStatus.permanent_error = true
is_permanent_error _ = false

abbrev pub is_processing : CheckStatus → Bool
is_processing CheckStatus.processing = true
is_processing _ = false

abbrev pub is_in_flight_unknown : CheckStatus → Bool
is_in_flight_unknown CheckStatus.in_flight_unknown = true
is_in_flight_unknown _ = false

-- `status in (JobStatus.RUNNING, JobStatus.RATE_LIMITED)`
abbrev pub is_active : JobStatus → Bool
is_active JobStatus.running = true
is_active JobStatus.rate_limited = true
is_active _ = false

abbrev pub is_paused : JobStatus → Bool
is_paused JobStatus.paused = true
is_paused _ = false

abbrev pub is_completed : JobStatus → Bool
is_completed JobStatus.completed = true
is_completed _ = false

abbrev pub is_cancelled : JobStatus → Bool
is_cancelled JobStatus.cancelled = true
is_cancelled _ = false

abbrev pub is_pause : JobCommand → Bool
is_pause JobCommand.pause = true
is_pause _ = false

abbrev pub is_no_command : JobCommand → Bool
is_no_command JobCommand.none = true
is_no_command _ = false
