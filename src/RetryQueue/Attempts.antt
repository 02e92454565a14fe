-- ===== src/RetryQueue/Attempts.antt =====
-- An item never has more attempts than it was given.
use tools_tele_t_ng.Base.{
  ℕ, ◌+◌, ◌≡◌, ◌↔◌, ◌≤◌, ◌<◌, true, false, ◌&&◌, Option, none, some, String, find, IsUnique, leb,
  if◌then◌else◌, arith, Bool-cases, inl, inr,
}
use tools_tele_t_ng.Models.Clock.{Moment}
use tools_tele_t_ng.Models.Status.{CheckStatus, ErrorType, error_text}
use tools_tele_t_ng.Models.Rows.{CheckItem}
use tools_tele_t_ng.Database.{Db, item_key}
use tools_tele_t_ng.ResultRepo.Claims.{owner_guard}
use tools_tele_t_ng.ResultRepo.Results.{
  Guards, Outcome, plain, token_guard, settle_row, save_result, mark_retry,
}
use tools_tele_t_ng.ResultRepo.Fencing.{save_result_lem}
use tools_tele_t_ng.RetryQueue.Policy.{calculate_next_retry_delay}
use tools_tele_t_ng.RetryQueue.Schedule.{RetryQueue, item_max, schedule_retry}

-- What has become of the row `i` of an item that is scheduled for a retry.
pub record Scheduled (now limit : ℕ) (delay : ℕ) (item row : CheckItem) : Type 0 where
  pub counted : row.attempt_count ≡ item.attempt_count + 1
  pub exhausted : (row.status ≡ CheckStatus.permanent_error) ↔ (limit ≤ item.attempt_count + 1)
  pub given_up :
      limit ≤ item.attempt_count + 1 → (row.completed_at ≡ some now) × (row.next_retry_at ≡ none)
  pub waits :
      item.attempt_count + 1 < limit
      → (row.status ≡ CheckStatus.retry_required)
        × (row.completed_at ≡ none)
        × (row.next_retry_at ≡ some (now + delay))
  pub released : row.processing_token ≡ none

abbrev pub exhausted_outcome : CheckItem → Outcome
exhausted_outcome item = record (plain CheckStatus.permanent_error) {
  attempt_count = some (item.attempt_count + 1);
  last_error_type = some (error_text ErrorType.retry_exhausted);
  last_error_message = some "Maximum retry attempts reached";
  completed = true;
}

abbrev pub retry_outcome : Moment → CheckItem → Option String → Option String → Outcome
retry_outcome at item error_type error_message = record (plain CheckStatus.retry_required) {
  attempt_count = some (item.attempt_count + 1);
  next_retry_at = some at;
  last_error_type = error_type;
  last_error_message = error_message;
}

module _ (now : Moment) (jitter : Option (ℕ → ℕ)) (q : RetryQueue) (item : CheckItem)
    (error_type error_message : Option String) (retry_after : Option ℕ) where
  abbrev pub delay : ℕ
  delay =
      calculate_next_retry_delay (item.attempt_count + 1) retry_after q.base_delay q.max_delay
        jitter

  abbrev pub outcome : Outcome
  outcome =
      if leb (item_max q item) (item.attempt_count + 1)
      then exhausted_outcome item
      else retry_outcome (now + delay) item error_type error_message

  -- Both branches are one write.
  pub schedule_retry-eq-save_result :
      (guards : Guards) (db : Db)
      → schedule_retry now jitter q item error_type error_message retry_after guards db
        ≡ save_result now item.id outcome guards db
  unfolding schedule_retry mark_retry
  schedule_retry-eq-save_result guards db =
      elim (Bool-cases (leb (item_max q item) (item.attempt_count + 1))) [
        | inl last ↦ rw last
        | inr more ↦ rw more
      ]

  outcome-Scheduled :
      (i : CheckItem) → Scheduled now (item_max q item) delay item (settle_row now outcome i)
  outcome-Scheduled i = elim (Bool-cases (leb (item_max q item) (item.attempt_count + 1))) [
    | inl last ↦ rw last (ground arith)
    | inr more ↦ rw more (ground arith)
  ]

-- A failed attempt that the guards allow is counted once, whichever way it goes: exactly if it was the
-- last that the item has, the item becomes PERMANENT_ERROR, and then it is completed and has no next
-- retry; otherwise it is RETRY_REQUIRED, is not completed, and waits for the delay of the policy. Either
-- way the item gives up its token. A write that the guards refuse changes nothing.
pub schedule_retry-Scheduled :
    (now : Moment) (jitter : Option (ℕ → ℕ)) (q : RetryQueue) (item : CheckItem)
    (error_type error_message : Option String) (retry_after : Option ℕ) (guards : Guards) (db : Db)
    (i : CheckItem)
    → IsUnique item_key db.check_items
    → find item_key item.id db.check_items ≡ some i
    → let allowed = token_guard guards.processing_token i && owner_guard now guards.owner db i in
      let delay =
        calculate_next_retry_delay
          (item.attempt_count + 1)
          retry_after
          q.base_delay
          q.max_delay
          jitter in
      let (db', written) =
        schedule_retry now jitter q item error_type error_message retry_after guards db in
      (written ≡ allowed)
      × (allowed ≡ true
          → (row : CheckItem) × (find item_key item.id db'.check_items ≡ some row)
            × Scheduled now (item_max q item) delay item row)
      × (allowed ≡ false → db' ≡ db)
schedule_retry-Scheduled now jitter q item error_type error_message retry_after guards db i unique
      here =
    rw
      (schedule_retry-eq-save_result now jitter q item error_type error_message retry_after guards
        db)
      (let o = outcome now jitter q item error_type error_message retry_after in
        let law = save_result_lem now item.id db i unique here o guards in
        (
          law.0,
          λ allowed. (
            settle_row now o i,
            ground (arith, law.1),
            outcome-Scheduled now jitter q item error_type error_message retry_after i,
          ),
          law.2,
        ))
