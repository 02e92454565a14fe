-- ===== src/Worker/Answers.antt =====
-- `Worker._handle_response`: every answer is one write under the worker's guards.
use tools_tele_t_ng.Base.{
  ℕ, ◌+◌, ◌≡◌, ◌≢◌, refl, ap, sym, ◌∙◌, subst, Bool, true, false, ◌&&◌, Option, none, some, find,
  IsUnique, ◌==◌, leb, is_null, if◌then◌else◌, arith, Option-cases, Bool-cases, inl, inr,
}
use tools_tele_t_ng.Models.Clock.{Moment}
use tools_tele_t_ng.Models.Status.{CheckStatus, is_processing}
use tools_tele_t_ng.Models.Rows.{Key, CheckItem, CheckResponse}
use tools_tele_t_ng.Database.{Db, item_key, job_key, cooldown_key}
use tools_tele_t_ng.JobRepo.JobLease.{is_job_owned_by}
use tools_tele_t_ng.ResultRepo.Claims.{is_claimed}
use tools_tele_t_ng.ResultRepo.Results.{Outcome, Guards, settle_row, save_result}
use tools_tele_t_ng.ResultRepo.Fencing.{
  guards_of, save_result_lem, job_is_leased-eq-is_job_owned_by,
}
use tools_tele_t_ng.RetryQueue.Schedule.{RetryQueue, schedule_retry, item_max}
use tools_tele_t_ng.RetryQueue.Attempts
use tools_tele_t_ng.RetryQueue.Attempts.{schedule_retry-eq-save_result}
use tools_tele_t_ng.RateLimiter.State.{
  Limiter, to_iso, register_rate_limit, persist, upsert_cooldown,
}
use tools_tele_t_ng.Worker.Core.{Worker}
use tools_tele_t_ng.Worker.Turn.{World}
use tools_tele_t_ng.Worker.Request.{
  write_guards, flood_seconds, found_outcome, not_discoverable_outcome, permanent_outcome, respond,
  handle_response,
}

-- The status that an answer leaves an item with: one that settles a number is recorded as it is, and
-- any other asks for another try, while the item has one.
abbrev pub recorded_status : RetryQueue → CheckItem → CheckStatus → CheckStatus
recorded_status q item CheckStatus.found = CheckStatus.found
recorded_status q item CheckStatus.not_discoverable = CheckStatus.not_discoverable
recorded_status q item CheckStatus.permanent_error = CheckStatus.permanent_error
recorded_status q item _ =
    if leb (item_max q item) (item.attempt_count + 1)
    then CheckStatus.permanent_error
    else CheckStatus.retry_required

-- The row has the user of the answer, and is completed.
pub record Identified (r : CheckResponse) (row : CheckItem) : Type 0 where
  pub telegram_user_id : row.telegram_user_id ≡ r.telegram_user_id
  pub username : row.username ≡ r.username
  pub first_name : row.first_name ≡ r.first_name
  pub last_name : row.last_name ≡ r.last_name
  pub user_was_online : row.user_was_online ≡ r.user_was_online
  pub completed : is_null row.completed_at ≡ false

-- One write of `o` that counts an attempt and records the answer `r` as one of `status`, on the tables
-- of `s`.
unfoldable pub Writes :
    CheckStatus
    → Moment
    → RetryQueue
    → Guards
    → CheckItem
    → CheckResponse
    → World
    → Bool × World
    → Type 0
Writes status now q g item r s (ok, s') =
    (o : Outcome) × (db : Db) × (o.attempt_count ≡ some (item.attempt_count + 1))
    × (o.status ≡ recorded_status q item status)
    × (is_processing o.status ≡ false)
    × (status ≡ CheckStatus.found → (i : CheckItem) → Identified r (settle_row now o i))
    × (db.check_items ≡ s.db.check_items)
    × (db.jobs ≡ s.db.jobs)
    × (ok ≡ (save_result now item.id o g db).1)
    × (s'.db ≡ (save_result now item.id o g db).0)

pub upsert_cooldown-tables :
    (account : Key) (blocked limited : Option Moment) (now : Moment) (db : Db)
    → ((upsert_cooldown account blocked limited now db).check_items ≡ db.check_items)
      × ((upsert_cooldown account blocked limited now db).jobs ≡ db.jobs)
upsert_cooldown-tables account blocked limited now db =
    elim (Option-cases (find cooldown_key account db.account_runtime_state)) [
      | inl e ↦ rw (upsert_cooldown, e) (refl, refl)
      | inr (c, e) ↦ rw (upsert_cooldown, e) (refl, refl)
    ]

-- A rate limit is written to a table of its own.
pub register_rate_limit-tables :
    (ms seconds : ℕ) (l : Limiter) (db : Db)
    → ((register_rate_limit ms seconds l db).1.check_items ≡ db.check_items)
      × ((register_rate_limit ms seconds l db).1.jobs ≡ db.jobs)
unfolding register_rate_limit persist
register_rate_limit-tables ms seconds l db = elim (Option-cases l.account_key) [
  | inl e ↦ rw e (refl, refl)
  | inr (account, e) ↦ rw e (upsert_cooldown-tables account _ _ _ db)
]

-- An answer that asks for another try is recorded as `schedule_retry` has it.
module _ (ms : ℕ) (jitter : Option (ℕ → ℕ)) (q : RetryQueue) (g : Guards) (item : CheckItem)
    (r : CheckResponse) (s : World) where
  retry-Writes :
      (status : CheckStatus) (after : Option ℕ) (w : Worker) (l : Limiter) (db : Db)
      → db.check_items ≡ s.db.check_items
      → db.jobs ≡ s.db.jobs
      → status ≢ CheckStatus.found
      → recorded_status q item status ≡ (
          if leb (item_max q item) (item.attempt_count + 1)
          then CheckStatus.permanent_error
          else CheckStatus.retry_required)
      → let (db', written) =
          schedule_retry (to_iso ms) jitter q item r.error_type r.error_message after g db in
        Writes status
          (to_iso ms)
          q
          g
          item
          r
          s
          (written, record { worker = w; limiter = l; db = db' })
  unfolding Writes
  retry-Writes status after w l db items jobs ne again =
      let same =
        schedule_retry-eq-save_result (to_iso ms) jitter q item r.error_type r.error_message after g
          db in
      let o = Attempts.outcome (to_iso ms) jitter q item r.error_type r.error_message after in
      let ok = ap (λ x. x.1) same in
      let left = ap (λ x. x.0) same in
      elim (Bool-cases (leb (item_max q item) (item.attempt_count + 1))) [
        | inl last ↦ (
          o,
          db,
          rw last refl,
          rw again (rw last refl),
          rw last refl,
          λ e. absurd (ne e),
          items,
          jobs,
          ok,
          left,
        )
        | inr more ↦ (
          o,
          db,
          rw more refl,
          rw again (rw more refl),
          rw more refl,
          λ e. absurd (ne e),
          items,
          jobs,
          ok,
          left,
        )
      ]

  other-Writes :
      (status : CheckStatus)
      → status ≢ CheckStatus.found
      → recorded_status q item status ≡ (
          if leb (item_max q item) (item.attempt_count + 1)
          then CheckStatus.permanent_error
          else CheckStatus.retry_required)
      → let (db', written) =
          schedule_retry
            (to_iso ms)
            jitter
            q
            item
            r.error_type
            r.error_message
            r.retry_after_seconds
            g
            s.db in
        Writes status (to_iso ms) q g item r s (written, record s { db = db' })
  other-Writes status = retry-Writes status r.retry_after_seconds s.worker s.limiter s.db refl refl

  found_outcome-Identified :
      (i : CheckItem) → Identified r (settle_row (to_iso ms) (found_outcome item r) i)
  found_outcome-Identified i = record {
    telegram_user_id = refl;
    username = refl;
    first_name = refl;
    last_name = refl;
    user_was_online = refl;
    completed = refl;
  }

  pub respond-Writes :
      (status : CheckStatus)
      → Writes status (to_iso ms) q g item r s (respond status ms jitter q g item r s)
  unfolding respond Writes
  respond-Writes CheckStatus.found = (
    found_outcome item r,
    s.db,
    refl,
    refl,
    refl,
    λ e. found_outcome-Identified,
    refl,
    refl,
    refl,
    refl,
  )
  respond-Writes CheckStatus.not_discoverable = (
    not_discoverable_outcome item,
    s.db,
    refl,
    refl,
    refl,
    λ e. absurd (ground arith),
    refl,
    refl,
    refl,
    refl,
  )
  respond-Writes CheckStatus.permanent_error = (
    permanent_outcome item r,
    s.db,
    refl,
    refl,
    refl,
    λ e. absurd (ground arith),
    refl,
    refl,
    refl,
    refl,
  )
  respond-Writes CheckStatus.rate_limited =
      let tables = register_rate_limit-tables ms (flood_seconds r) s.limiter s.db in
      retry-Writes CheckStatus.rate_limited (some (flood_seconds r))
        (record (s.worker) { paused_on_rate_limit = true }) s.limiter
        (register_rate_limit ms (flood_seconds r) s.limiter s.db).1 tables.0 tables.1
        (λ e. ground arith) refl
  respond-Writes CheckStatus.pending = other-Writes CheckStatus.pending (λ e. ground arith) refl
  respond-Writes CheckStatus.processing =
      other-Writes CheckStatus.processing (λ e. ground arith) refl
  respond-Writes CheckStatus.retry_required =
      other-Writes CheckStatus.retry_required (λ e. ground arith) refl
  respond-Writes CheckStatus.temporary_error =
      other-Writes CheckStatus.temporary_error (λ e. ground arith) refl
  respond-Writes CheckStatus.completed = other-Writes CheckStatus.completed (λ e. ground arith) refl
  respond-Writes CheckStatus.in_flight_unknown =
      other-Writes CheckStatus.in_flight_unknown (λ e. ground arith) refl

-- Whatever Telegram answers, the answer is recorded once or not at all, where the item and the job
-- have identifiers of their own: it is accepted exactly if the item is PROCESSING under the token of
-- the request, belongs to the job, and the job is owned by the worker. Then the item's row has one
-- attempt more and carries no token, and its status is that of the answer, if this settles the number,
-- and otherwise RETRY_REQUIRED, or PERMANENT_ERROR where that was the last attempt; a row that is FOUND
-- has the user that was answered. Where it is not accepted, the row is as it was. The jobs are left
-- alone.
pub handle_response-Recorded :
    (ms token job : ℕ) (jitter : Option (ℕ → ℕ)) (q : RetryQueue) (item i : CheckItem)
    (r : CheckResponse) (s : World)
    → IsUnique item_key s.db.check_items
    → IsUnique job_key s.db.jobs
    → find item_key item.id s.db.check_items ≡ some i
    → let (ok, s') = handle_response ms jitter q job item token r s in
      let accepted =
        is_claimed token i
        && ((i.job_id == job) && is_job_owned_by (to_iso ms) i.job_id s.worker.worker_id s.db) in
      (ok ≡ accepted)
      × (accepted ≡ true
          → (row : CheckItem) × (find item_key item.id s'.db.check_items ≡ some row)
            × (row.attempt_count ≡ item.attempt_count + 1)
            × (row.status ≡ recorded_status q item r.status)
            × (is_processing row.status ≡ false)
            × (row.processing_token ≡ none)
            × (r.status ≡ CheckStatus.found → Identified r row))
      × (accepted ≡ false → find item_key item.id s'.db.check_items ≡ some i)
      × (s'.db.jobs ≡ s.db.jobs)
unfolding handle_response Writes write_guards save_result
handle_response-Recorded ms token job jitter q item i r s unique unique_jobs here =
    let now = to_iso ms in
    let g = guards_of token job s.worker.worker_id in
    let (o, db, counted, status, settled, user, items, jobs, ok, left) =
      respond-Writes ms jitter q g item r s r.status in
    let law =
      save_result_lem now item.id db i (subst (IsUnique item_key) (sym items) unique)
        (ap (find item_key item.id) items ∙ here) o g in
    let owned = job_is_leased-eq-is_job_owned_by now i.job_id s.worker.worker_id s.db unique_jobs in
    (
      ground (arith, law, owned),
      λ accepted. (
        settle_row now o i,
        ground (arith, law, owned),
        ground arith,
        status,
        settled,
        refl,
        λ e. user e i,
      ),
      λ refused. ground (arith, law, owned),
      ap (λ db. db.jobs) left ∙ jobs,
    )
