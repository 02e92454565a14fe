-- ===== src/Runner/State.antt =====
-- `JobRunner`: the tasks that it keeps, the summary of a job, and the configuration of a job.
use tools_tele_t_ng.Base.{
  ℕ, suc, Bool, false, not, Option, none, some, String, List, [], ◌∷◌, ◌++◌, find, select_where,
  without, if◌then◌else◌, map,
}
use tools_tele_t_ng.Models.Clock.{Moment}
use tools_tele_t_ng.Models.Status.{CheckStatus, JobStatus, JobCommand}
use tools_tele_t_ng.Models.Rows.{Key}
use tools_tele_t_ng.Database.{Db}
use tools_tele_t_ng.JobRepo.Jobs.{get, get_requested_command}
use tools_tele_t_ng.JobRepo.JobLease.{list_running_without_worker}
use tools_tele_t_ng.ResultRepo.Items.{count_by_status, count_pending_all_statuses}
use tools_tele_t_ng.Manager.Recovery.{Config, recover}

-- An asyncio task of the runner, with the number of its creation.
pub record Task : Type 0 where
  pub job_id : Key
  pub serial : ℕ
  pub done : Bool

-- What a summary holds, but for the masked phone of the account.
pub record Summary : Type 0 where
  pub job_id : Key
  pub name : Option String
  pub status : JobStatus
  pub total : ℕ
  pub processed : ℕ
  pub found : ℕ
  pub not_discoverable : ℕ
  pub retry_queue : ℕ
  pub errors : ℕ
  pub pending : ℕ
  pub active : Bool
  pub requested_command : JobCommand

pub data Kind : Type 0 where
  job_update job_cancel_requested job_cancelled : Kind

-- What is published to the browsers.
pub data Event : Type 0 where
  job_event : Kind → Key → Summary → Event
  job_error : Key → Event

pub record Runner : Type 0 where
  pub db : Db
  pub tasks : List Task
  pub next_serial : ℕ
  pub events : List Event

abbrev pub task_job : Task → Key
task_job t = t.job_id

unfoldable pub is_active : Key → Runner → Bool
is_active job_id r = elim (find task_job job_id r.tasks) [ none ↦ false | some t ↦ not t.done ]

unfoldable pub active_jobs : Runner → List Key
active_jobs r = map task_job (select_where (λ t. not t.done) r.tasks)

-- `asyncio.create_task`, and `self._tasks[job_id] = task`.
unfoldable pub register_task : Key → Runner → Runner
register_task job_id r = record r {
  tasks =
      without task_job job_id r.tasks
      ++ record { job_id = job_id; serial = r.next_serial; done = false } ∷ [];
  next_serial = suc r.next_serial;
}

-- `self._tasks.pop(job_id, None)`
unfoldable pub pop_task : Key → Runner → Runner
pop_task job_id r = record r { tasks = without task_job job_id r.tasks }

unfoldable pub job_summary : Moment → Key → Runner → Option Summary
unfolding is_active
job_summary now job_id r = elim (get job_id r.db) [
  | none ↦ none
  | some job ↦ some (record {
    job_id = job.id;
    name = job.name;
    status = job.status;
    total = job.total_items;
    processed = job.processed_items;
    found = count_by_status job_id CheckStatus.found r.db;
    not_discoverable = count_by_status job_id CheckStatus.not_discoverable r.db;
    retry_queue = count_by_status job_id CheckStatus.retry_required r.db;
    errors = count_by_status job_id CheckStatus.permanent_error r.db;
    pending = count_pending_all_statuses now job_id r.db;
    active = is_active job_id r;
    requested_command = get_requested_command job_id r.db;
  })
]

abbrev pub publish : Event → Runner → Runner
publish e r = record r { events = r.events ++ e ∷ [] }

unfoldable pub publish_job : Moment → Kind → Key → Runner → Runner
unfolding job_summary
publish_job now kind job_id r = elim (job_summary now job_id r) [
  | none ↦ r
  | some data_of ↦ publish (job_event kind job_id data_of) r
]

-- `_config_for_job`. `account_key` is the hash of a phone; `default_phone` is missing if there is no
-- account manager.
unfoldable pub config_for_job : (Key → Key) → Option (Option Key) → Config → Key → Db → Config
config_for_job account_key default_phone c job_id db =
    let by_default : Config = elim default_phone [
      | none ↦ c
      | some none ↦ record c { account_key = none }
      | some (some phone) ↦ record c { account_key = some (account_key phone) }
    ] in
    elim (get job_id db) [
      | none ↦ by_default
      | some job ↦ elim job.telegram_account_phone [
        | none ↦ by_default
        | some phone ↦ record c { account_key = some (account_key phone) }
      ]
    ]

module _ (account_key : Key → Key) (default_phone : Option (Option Key)) (c : Config) where
  recover_each : Moment → List Key → Db × ℕ → Db × ℕ
  unfolding config_for_job
  recover_each now [] acc = acc
  recover_each now (k ∷ ks) (db, n) =
      recover_each now ks
        (recover now (config_for_job account_key default_phone c k db) k db, suc n)

  unfoldable pub recover_all_stale : Moment → Db → Db × ℕ
  unfolding recover_each
  recover_all_stale now db = recover_each now (list_running_without_worker now db) (db, 0)

-- `shutdown`: every task is cancelled and awaited, and none is kept.
unfoldable pub shutdown : Runner → Runner
shutdown r = record r { tasks = [] }

-- One round of the monitor: each job with a running task is published.
unfoldable pub monitor : Moment → List Task → Runner → Runner
unfolding is_active publish_job
monitor now [] r = r
monitor now (t ∷ rest) r =
    monitor now rest (if is_active t.job_id r then publish_job now job_update t.job_id r else r)
