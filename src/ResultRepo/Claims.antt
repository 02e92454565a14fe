-- ===== src/ResultRepo/Claims.antt =====
-- ResultRepository: the claim of an item by a token, and the two quarantines.
use tools_tele_t_ng.Base.{
  ℕ, Bool, true, not, ◌&&◌, Option, none, some, String, count_where, first_where, is_null, holds,
  ◌==◌, if◌then◌else◌,
}
use tools_tele_t_ng.Models.Clock.{Moment}
use tools_tele_t_ng.Models.Status.{CheckStatus, ErrorType, error_text, is_processing}
use tools_tele_t_ng.Models.Rows.{Key, CheckItem}
use tools_tele_t_ng.Database.{Db, update_items, write_items}
use tools_tele_t_ng.JobRepo.JobLease.{owned_row}
use tools_tele_t_ng.ResultRepo.Items.{is_selectable}

-- The job and the worker that a guarded write names, if it names both.
pub data Owner : Type 0 where
  anyone : Owner
  worker_of : Key → Key → Owner

-- `EXISTS (SELECT 1 FROM jobs WHERE jobs.id = … AND worker_id = ? AND worker_lease_until > ?)`
abbrev pub job_is_leased : Moment → Key → Key → Db → Bool
job_is_leased now job_id worker db =
    not (is_null (first_where (owned_row job_id worker now) db.jobs))

-- ` AND job_id = ? AND EXISTS …`, over the tables as the statement finds them.
abbrev pub owner_guard : Moment → Owner → Db → CheckItem → Bool
owner_guard now anyone db i = true
owner_guard now (worker_of job_id worker) db i =
    (i.job_id == job_id) && job_is_leased now i.job_id worker db

abbrev pub claim_row : Moment → Key → CheckItem → CheckItem
claim_row now token i = record i {
  status = CheckStatus.processing;
  started_at = some now;
  in_flight_started_at = some now;
  ownership_lost_at = none;
  recovery_after = none;
  processing_token = some token;
  updated_at = now;
}

-- `token` is the uuid that the call draws.
unfoldable pub mark_processing : Moment → Key → ℕ → Owner → Db → Db × Option Key
mark_processing now token item_id owner db =
    let (db', written) =
      write_items (λ i. (i.id == item_id) && (is_selectable now i && owner_guard now owner db i))
        (claim_row now token) db in
    (db', if written then some token else none)

-- `status = 'PROCESSING' AND processing_token = ?`
abbrev pub is_claimed : Key → CheckItem → Bool
is_claimed token i = is_processing i.status && holds i.processing_token token

abbrev pub quarantine_row : Moment → Moment → String → CheckItem → CheckItem
quarantine_row now recovery_after message i = record i {
  status = CheckStatus.in_flight_unknown;
  ownership_lost_at = some now;
  recovery_after = some recovery_after;
  next_retry_at = none;
  processing_token = none;
  last_error_type = some (error_text ErrorType.worker_interrupted);
  last_error_message = some message;
  updated_at = now;
}

unfoldable pub mark_in_flight_unknown : Moment → ℕ → Key → Moment → Db → Db × Bool
mark_in_flight_unknown now item_id token recovery_after =
    write_items (λ i. (i.id == item_id) && is_claimed token i)
      (quarantine_row now recovery_after "Ownership lost while Telegram request was in flight")

-- The row count is the result.
unfoldable pub recover_interrupted : Moment → Key → Moment → Db → Db × ℕ
recover_interrupted now job_id recovery_after db = (
  update_items (λ i. (i.job_id == job_id) && is_processing i.status)
      (quarantine_row now recovery_after "Worker stopped with an unresolved in-flight request") db,
  count_where (λ i. (i.job_id == job_id) && is_processing i.status) db.check_items,
)
