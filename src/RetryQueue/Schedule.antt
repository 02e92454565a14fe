-- ===== src/RetryQueue/Schedule.antt =====
-- `RetryQueue`: an item is retried later, or is permanently failed when its attempts are used up.
use tools_tele_t_ng.Base.{ℕ, ◌+◌, Bool, true, Option, some, String, leb, ◌==◌, if◌then◌else◌}
use tools_tele_t_ng.Models.Clock.{Moment, iso_from_offset}
use tools_tele_t_ng.Models.Status.{CheckStatus, ErrorType, error_text}
use tools_tele_t_ng.Models.Rows.{Key, CheckItem}
use tools_tele_t_ng.Database.{Db}
use tools_tele_t_ng.ResultRepo.Items.{next_due_item}
use tools_tele_t_ng.ResultRepo.Results.{Guards, plain, save_result, mark_retry}
use tools_tele_t_ng.RetryQueue.Policy.{calculate_next_retry_delay}

pub record RetryQueue : Type 0 where
  pub max_attempts : ℕ
  pub base_delay : ℕ
  pub max_delay : ℕ

unfoldable pub next : Moment → Key → Db → Option CheckItem
unfolding next_due_item
next now job_id db = next_due_item now job_id db

unfoldable pub is_exhausted : CheckItem → Bool
is_exhausted item = leb item.max_attempts item.attempt_count

-- `item.max_attempts or self._max_attempts`
abbrev pub item_max : RetryQueue → CheckItem → ℕ
item_max q item = if item.max_attempts == 0 then q.max_attempts else item.max_attempts

-- `jitter` is the random scaling of the delay.
unfoldable pub schedule_retry :
    Moment
    → Option (ℕ → ℕ)
    → RetryQueue
    → CheckItem
    → Option String
    → Option String
    → Option ℕ
    → Guards
    → Db
    → Db × Bool
schedule_retry now jitter q item error_type error_message retry_after guards db =
    let new_attempt = item.attempt_count + 1 in
    if leb (item_max q item) new_attempt
    then save_result now item.id
        (record (plain CheckStatus.permanent_error) {
          attempt_count = some new_attempt;
          last_error_type = some (error_text ErrorType.retry_exhausted);
          last_error_message = some "Maximum retry attempts reached";
          completed = true;
        })
        guards db
    else let delay =
        calculate_next_retry_delay new_attempt retry_after q.base_delay q.max_delay jitter in
      mark_retry now item.id new_attempt (iso_from_offset now delay) error_type error_message guards
        db
