-- ===== src/Routes/Jobs.antt =====
-- `_job_detail` and `delete_job`. What is shown of a phone is left out.
use tools_tele_t_ng.Base.{
  ℕ, zero, suc, ◌+◌, Bool, true, false, not, ◌&&◌, ◌||◌, Option, none, some, String, List, [], ◌∷◌,
  ◌++◌, find, select_where, without, ltb, ◌==◌, if◌then◌else◌, map,
}
use tools_tele_t_ng.Models.Clock.{Moment}
use tools_tele_t_ng.Models.Status.{CheckStatus, JobStatus, is_completed, is_cancelled, is_paused}
use tools_tele_t_ng.Models.Rows.{Key, Job, JobMode}
use tools_tele_t_ng.Database.{Db, job_key, cooldown_key}
use tools_tele_t_ng.JobRepo.Jobs.{get, list_children}
use tools_tele_t_ng.JobRepo.JobLease.{has_live_worker_lease}
use tools_tele_t_ng.ResultRepo.Items.{
  count_by_status, count_pending_all_statuses, get_next_retry_at,
}
use tools_tele_t_ng.Runner.State.{Runner, is_active}
use tools_tele_t_ng.Runner.Actions.{is_parent, targets, with_db}
use tools_tele_t_ng.Runner.Parents.{is_failed, any_of, all_of, is_some}

-- How a job is called that is shown.
pub data Shape : Type 0 where
  single branch multi : Shape

pub record Detail : Type 0 where
  pub job_id : Key
  pub name : Option String
  pub status : JobStatus
  pub job_mode : Shape
  pub total : ℕ
  pub processed : ℕ
  pub found : ℕ
  pub not_discoverable : ℕ
  pub retry_queue : ℕ
  pub errors : ℕ
  pub pending : ℕ
  pub active : Bool
  pub created_at : Moment
  pub started_at : Option Moment
  pub finished_at : Option Moment
  pub last_error_type : Option String
  pub last_error_message : Option String
  pub next_retry_at : Option Moment
  pub account_blocked_until : Option Moment

abbrev pub is_running : JobStatus → Bool
is_running JobStatus.running = true
is_running _ = false

abbrev pub is_rate_limited : JobStatus → Bool
is_rate_limited JobStatus.rate_limited = true
is_rate_limited _ = false

-- `parent_status`, by the statuses of the branches.
unfoldable pub shown_status : List JobStatus → JobStatus
shown_status statuses =
    if any_of is_running statuses
    then JobStatus.running
    else if any_of is_rate_limited statuses
    then JobStatus.rate_limited
    else if is_some statuses && all_of is_completed statuses
    then JobStatus.completed
    else if is_some statuses && all_of is_cancelled statuses
    then JobStatus.cancelled
    else if any_of is_failed statuses
    then JobStatus.failed
    else if any_of is_paused statuses
    then JobStatus.paused
    else JobStatus.created

abbrev pub sum_of : (Detail → ℕ) → List Detail → ℕ
sum_of f [] = 0
sum_of f (d ∷ rest) = f d + sum_of f rest

abbrev pub pick : (Moment → Moment → Bool) → Option Moment → Option Moment → Option Moment
pick before none m = m
pick before (some t) none = some t
pick before (some t) (some u) = if before u t then some u else some t

-- `min(… if …, default=None)` and `max`.
abbrev pub extreme :
    (Moment → Moment → Bool) → (Detail → Option Moment) → List Detail → Option Moment
extreme before f [] = none
extreme before f (d ∷ rest) = pick before (f d) (extreme before f rest)

-- The first text that is not empty.
abbrev pub first_text : (Detail → Option String) → List Detail → Option String
first_text f [] = none
first_text f (d ∷ rest) = elim (f d) [
  | none ↦ first_text f rest
  | some String.[] ↦ first_text f rest
  | some text ↦ some text
]

abbrev pub detail_status : Detail → JobStatus
detail_status d = d.status

unfoldable pub parent_detail : Job → List Detail → Runner → Detail
unfolding is_active shown_status
parent_detail j branches r =
    let statuses = map detail_status branches in
    record {
      job_id = j.id;
      name = j.name;
      status = shown_status statuses;
      job_mode = Shape.multi;
      total = sum_of (λ d. d.total) branches;
      processed = sum_of (λ d. d.processed) branches;
      found = sum_of (λ d. d.found) branches;
      not_discoverable = sum_of (λ d. d.not_discoverable) branches;
      retry_queue = sum_of (λ d. d.retry_queue) branches;
      errors = sum_of (λ d. d.errors) branches;
      pending = sum_of (λ d. d.pending) branches;
      active = is_active j.id r || any_of (λ (d : Detail). d.active) branches;
      created_at = j.created_at;
      started_at = extreme ltb (λ d. d.started_at) branches;
      finished_at =
          if is_some branches && all_of (λ s. is_completed s || is_cancelled s) statuses
          then extreme (λ t u. ltb u t) (λ d. d.finished_at) branches
          else none;
      last_error_type = first_text (λ d. d.last_error_type) branches;
      last_error_message = first_text (λ d. d.last_error_message) branches;
      next_retry_at = extreme ltb (λ d. d.next_retry_at) branches;
      account_blocked_until = none;
    }

abbrev pub phone_or : Option Key → Option Key → Option Key
phone_or none fallback = fallback
phone_or (some phone) fallback = some phone

abbrev pub shape_of : JobMode → Shape
shape_of JobMode.single = Shape.single
shape_of _ = Shape.branch

-- `account_key` is the hash of a phone, and `api_phone` the configured one.
module _ (account_key : Key → Key) (api_phone : Option Key) where
  abbrev pub blocked_until : Job → Db → Option Moment
  blocked_until j db = elim (phone_or j.telegram_account_phone api_phone) [
    | none ↦ none
    | some phone ↦ elim (find cooldown_key (account_key phone) db.account_runtime_state) [
      | none ↦ none
      | some c ↦ c.blocked_until
    ]
  ]

  unfoldable pub single_detail : Moment → Job → Runner → Detail
  unfolding is_active
  single_detail now j r = record {
    job_id = j.id;
    name = j.name;
    status = j.status;
    job_mode = shape_of j.job_mode;
    total = j.total_items;
    processed = j.processed_items;
    found = count_by_status j.id CheckStatus.found r.db;
    not_discoverable = count_by_status j.id CheckStatus.not_discoverable r.db;
    retry_queue = count_by_status j.id CheckStatus.retry_required r.db;
    errors = count_by_status j.id CheckStatus.permanent_error r.db;
    pending = count_pending_all_statuses now j.id r.db;
    active = is_active j.id r;
    created_at = j.created_at;
    started_at = j.started_at;
    finished_at = j.finished_at;
    last_error_type = j.last_error_type;
    last_error_message = j.last_error_message;
    next_retry_at = get_next_retry_at j.id r.db;
    account_blocked_until = blocked_until j r.db;
  }

  -- The details of the branches; the first that fails is the failure of all.
  abbrev pub detail_each : (Key → Option Detail) → List Job → Option (List Detail)
  detail_each detail [] = some []
  detail_each detail (j ∷ rest) = elim (detail j.id) [
    | none ↦ none
    | some d ↦ elim (detail_each detail rest) [ none ↦ none | some ds ↦ some (d ∷ ds) ]
  ]

  -- `none`: 404, or branches nested deeper than the fuel.
  unfoldable pub job_detail : ℕ → Moment → Key → Runner → Option Detail
  unfolding parent_detail single_detail
  job_detail zero now job_id r = none
  job_detail (suc depth) now job_id r = elim (get job_id r.db) [
    | none ↦ none
    | some j ↦ elim (is_parent j) [
      | false ↦ some (single_detail now j r)
      | true ↦ elim (detail_each (λ k. job_detail depth now k r) (list_children job_id r.db)) [
        | none ↦ none
        | some branches ↦ some (parent_detail j branches r)
      ]
    ]
  ]

-- The statements of the deletion.
unfoldable pub delete_items : List Job → Db → Db
delete_items [] db = db
delete_items (j ∷ rest) db =
    delete_items rest
      (record db { check_items = select_where (λ i. not (i.job_id == j.id)) db.check_items })

unfoldable pub delete_jobs : List Job → Db → Db
delete_jobs [] db = db
delete_jobs (j ∷ rest) db = delete_jobs rest (record db { jobs = without job_key j.id db.jobs })

abbrev pub is_busy : Moment → Runner → Job → Bool
is_busy now r j = is_active j.id r || has_live_worker_lease now j.id r.db

-- The jobs that go, the parent last.
abbrev pub doomed : Job → Db → List Job
doomed j db = targets j db ++ (if is_parent j then j ∷ [] else [])

pub data Deleted : Type 0 where
  not_found conflict deleted : Deleted

unfoldable pub delete_job : Moment → Key → Runner → Deleted × Runner
unfolding delete_items delete_jobs is_active
delete_job now job_id r = elim (get job_id r.db) [
  | none ↦ (not_found, r)
  | some j ↦
      if any_of (is_busy now r) (doomed j r.db)
      then (conflict, r)
      else (deleted, with_db r (delete_jobs (doomed j r.db) (delete_items (targets j r.db) r.db)))
]
