-- ===== src/Worker/Request.antt =====
-- `Worker._acquire_and_run_one`, cut at its await: the claim of the item, and what is done with
-- Telegram's answer.
use tools_tele_t_ng.Base.{ℕ, ◌+◌, Bool, true, false, Option, none, some, if◌then◌else◌}
use tools_tele_t_ng.Models.Clock.{Moment, iso_from_offset}
use tools_tele_t_ng.Models.Status.{CheckStatus}
use tools_tele_t_ng.Models.Rows.{Key, CheckItem, CheckResponse}
use tools_tele_t_ng.Database.{Db}
use tools_tele_t_ng.Checkpoint.{mark_processing}
use tools_tele_t_ng.ResultRepo.Claims.{worker_of, mark_in_flight_unknown}
use tools_tele_t_ng.ResultRepo.Results.{Outcome, Guards, plain, save_result}
use tools_tele_t_ng.RetryQueue.Schedule.{RetryQueue, schedule_retry}
use tools_tele_t_ng.RateLimiter.State.{to_iso, register_success, register_rate_limit}
use tools_tele_t_ng.Worker.Core.{Worker}
use tools_tele_t_ng.Worker.Turn.{World, assert_live_owner}

-- Behind `acquire`: a request goes out under a token, or the item was not to be had, or ownership
-- is lost.
pub data Begin : Type 0 where
  sent : Key → Begin
  not_claimed lost : Begin

-- Behind `checkpoint.mark_processing`.
abbrev pub begun : World → Option Key → Begin × World
begun s none = (not_claimed, s)
begun s (some token) = (sent token, s)

unfoldable pub begin_request : ℕ → Key → Key → CheckItem → World → Begin × World
begin_request ms token job_id item s =
    let now = to_iso ms in
    let (owned, w) = assert_live_owner now s.worker s.db in
    let (db, claimed) = mark_processing now token item (worker_of job_id w.worker_id) s.db in
    if owned
    then begun (record s { worker = w; db = db }) claimed
    else (lost, record s { worker = w })

unfoldable pub write_guards : Key → Worker → Key → Guards
write_guards job_id w token = record {
  processing_token = some token;
  owner = worker_of job_id w.worker_id;
}

unfoldable pub quarantine_in_flight : Moment → Worker → CheckItem → Key → Db → Db × Bool
quarantine_in_flight now w item token =
    mark_in_flight_unknown now item.id token
      (iso_from_offset now w.in_flight_recovery_grace_seconds)

-- Telegram's wait, or a minute if it names none.
abbrev pub flood_seconds : CheckResponse → ℕ
flood_seconds r = elim r.retry_after_seconds [ none ↦ 60 | some s ↦ s ]

abbrev pub found_outcome : CheckItem → CheckResponse → Outcome
found_outcome item r = record (plain CheckStatus.found) {
  attempt_count = some (item.attempt_count + 1);
  telegram_user_id = r.telegram_user_id;
  username = r.username;
  first_name = r.first_name;
  last_name = r.last_name;
  user_was_online = r.user_was_online;
  cleanup_error = r.cleanup_error;
  completed = true;
}

abbrev pub not_discoverable_outcome : CheckItem → Outcome
not_discoverable_outcome item = record (plain CheckStatus.not_discoverable) {
  attempt_count = some (item.attempt_count + 1);
  completed = true;
}

abbrev pub permanent_outcome : CheckItem → CheckResponse → Outcome
permanent_outcome item r = record (plain CheckStatus.permanent_error) {
  attempt_count = some (item.attempt_count + 1);
  last_error_type = r.error_type;
  last_error_message = r.error_message;
  completed = true;
}

-- `_handle_response` by the status of the answer; the Boolean is `_require_item_write`'s test.
unfoldable pub respond :
    CheckStatus
    → ℕ
    → Option (ℕ → ℕ)
    → RetryQueue
    → Guards
    → CheckItem
    → CheckResponse
    → World
    → Bool × World
respond CheckStatus.found ms jitter q g item r s =
    let (db, written) = save_result (to_iso ms) item.id (found_outcome item r) g s.db in
    (written, record s { db = db })
respond CheckStatus.not_discoverable ms jitter q g item r s =
    let (db, written) = save_result (to_iso ms) item.id (not_discoverable_outcome item) g s.db in
    (written, record s { db = db })
respond CheckStatus.permanent_error ms jitter q g item r s =
    let (db, written) = save_result (to_iso ms) item.id (permanent_outcome item r) g s.db in
    (written, record s { db = db })
respond CheckStatus.rate_limited ms jitter q g item r s =
    let seconds = flood_seconds r in
    let (limiter, db) = register_rate_limit ms seconds s.limiter s.db in
    let (db', written) =
      schedule_retry (to_iso ms) jitter q item r.error_type r.error_message (some seconds) g db in
    (
      written,
      record {
        worker = record (s.worker) { paused_on_rate_limit = true };
        limiter = limiter;
        db = db';
      },
    )
respond _ ms jitter q g item r s =
    let (db, written) =
      schedule_retry (to_iso ms) jitter q item r.error_type r.error_message r.retry_after_seconds g
        s.db in
    (written, record s { db = db })

unfoldable pub handle_response :
    ℕ → Option (ℕ → ℕ) → RetryQueue → Key → CheckItem → Key → CheckResponse → World → Bool × World
unfolding respond write_guards
handle_response ms jitter q job_id item token r s =
    respond r.status ms jitter q (write_guards job_id s.worker token) item r s

-- An answer came while ownership was valid: the lease is checked once more, and the answer written
-- or the item put in quarantine. `false`: a `LostOwnershipError` is raised.
unfoldable pub settle :
    ℕ → Option (ℕ → ℕ) → RetryQueue → Key → CheckItem → Key → CheckResponse → World → Bool × World
settle ms jitter q job_id item token r s =
    let now = to_iso ms in
    let limiter = register_success ms s.limiter in
    let (owned, w) = assert_live_owner now s.worker s.db in
    if owned
    then handle_response ms jitter q job_id item token r
        (record s { worker = w; limiter = limiter })
    else (
      false,
      record { worker = w; limiter = limiter; db = (quarantine_in_flight now w item token s.db).0 },
    )

-- The fencing event fired first: the request is cancelled and the item put in quarantine.
unfoldable pub abandon : ℕ → CheckItem → Key → World → World
abandon ms item token s = record s {
  db = (quarantine_in_flight (to_iso ms) s.worker item token s.db).0;
}
