-- ===== src/ResultRepo/Items.antt =====
-- ResultRepository: insertion, selection and counts.
use tools_tele_t_ng.Base.{
  ℕ, suc, Bool, true, not, ◌&&◌, ◌||◌, Option, none, some, List, [], ◌∷◌, ◌++◌, String, find,
  first_where, select_where, count_where, is_null, due, ltb, leb, ◌==◌, if◌then◌else◌,
}
use tools_tele_t_ng.Models.Clock.{Moment}
use tools_tele_t_ng.Models.Status.{
  CheckStatus, ErrorType, error_text, is_waiting_status, is_retry_status, is_in_flight_unknown,
  is_terminal_status, same_status,
}
use tools_tele_t_ng.Models.Rows.{Key, CheckItem}
use tools_tele_t_ng.Database.{Db, item_key}
use tools_tele_t_ng.JobRepo.Stats.{tally}

abbrev pub blank_item : Moment → ℕ → Key → String → CheckItem
blank_item now id job_id original = record {
  id = id;
  job_id = job_id;
  original_phone = original;
  normalized_phone = none;
  status = CheckStatus.pending;
  attempt_count = 0;
  max_attempts = 5;
  next_retry_at = none;
  last_error_type = none;
  last_error_message = none;
  telegram_user_id = none;
  username = none;
  first_name = none;
  last_name = none;
  user_was_online = none;
  cleanup_error = none;
  created_at = now;
  started_at = none;
  completed_at = none;
  in_flight_started_at = none;
  ownership_lost_at = none;
  recovery_after = none;
  processing_token = none;
  updated_at = now;
}

-- `INTEGER PRIMARY KEY AUTOINCREMENT`: each new row has a number that no row had before.
abbrev add_item : (ℕ → CheckItem) → Db → Db × CheckItem
add_item make db =
    let item = make db.next_item_id in
    (
      record db { check_items = db.check_items ++ item ∷ []; next_item_id = suc db.next_item_id },
      item,
    )

unfoldable pub insert : Moment → Key → String → String → ℕ → Db → Db × CheckItem
insert now job_id original normalized max_attempts = add_item (λ id.
    record (blank_item now id job_id original) {
      normalized_phone = some normalized;
      max_attempts = max_attempts;
    })

-- Python's `message or default`: also an empty text gives way to the default.
abbrev pub or_default : Option String → String → String
or_default none default = default
or_default (some String.[]) default = default
or_default (some message) default = message

-- A phone that is never sent to Telegram. The object that is returned differs from the stored row:
-- it has the caller's message and no time of completion.
unfoldable pub insert_invalid : Moment → Key → String → Option String → Db → Db × CheckItem
unfolding error_text
insert_invalid now job_id original message db =
    let (db', item) =
      add_item
        (λ id. record (blank_item now id job_id original) {
          status = CheckStatus.permanent_error;
          last_error_type = some (error_text ErrorType.invalid_phone);
          last_error_message =
              some (or_default message "Invalid phone number (not sent to Telegram)");
          completed_at = some now;
        })
        db in
    (db', record item { last_error_message = message; completed_at = none })

unfoldable pub get : ℕ → Db → Option CheckItem
get item_id db = find item_key item_id db.check_items

-- `(waiting AND (next_retry_at IS NULL OR due)) OR (IN_FLIGHT_UNKNOWN AND recovery due)`
abbrev pub is_selectable : Moment → CheckItem → Bool
is_selectable now i =
    (is_waiting_status i.status && (is_null i.next_retry_at || due i.next_retry_at now))
    || (is_in_flight_unknown i.status && due i.recovery_after now)

-- The rows stand in the order of their numbers, so the first match is that of `ORDER BY id`.
unfoldable pub next_due_item : Moment → Key → Db → Option CheckItem
next_due_item now job_id db =
    first_where (λ i. (i.job_id == job_id) && is_selectable now i) db.check_items

unfoldable pub count_pending_all_statuses : Moment → Key → Db → ℕ
count_pending_all_statuses now job_id db =
    count_where (λ i. (i.job_id == job_id) && is_selectable now i) db.check_items

unfoldable pub count_by_status : Key → CheckStatus → Db → ℕ
count_by_status job_id status db = tally job_id (same_status status) db

unfoldable pub has_unfinished_items : Key → Db → Bool
has_unfinished_items job_id db = ltb 0 (tally job_id (λ s. not (is_terminal_status s)) db)

unfoldable pub count : Key → Db → ℕ
count job_id db = tally job_id (λ _. true) db

unfoldable pub all_items : Key → Db → List CheckItem
all_items job_id db = select_where (λ i. i.job_id == job_id) db.check_items

-- SQL's MIN skips the NULLs.
abbrev pub earlier : Option Moment → Option Moment → Option Moment
earlier none m = m
earlier (some a) none = some a
earlier (some a) (some b) = if leb a b then some a else some b

abbrev pub minimum :
    (CheckItem → Option Moment) → (CheckItem → Bool) → List CheckItem → Option Moment
minimum f p [] = none
minimum f p (i ∷ is) = let rest = minimum f p is in if p i then earlier (f i) rest else rest

unfoldable pub get_next_retry_at : Key → Db → Option Moment
get_next_retry_at job_id db =
    earlier
      (minimum (λ i. i.next_retry_at) (λ i. (i.job_id == job_id) && is_retry_status i.status)
        db.check_items)
      (minimum (λ i. i.recovery_after) (λ i. (i.job_id == job_id) && is_in_flight_unknown i.status)
        db.check_items)
