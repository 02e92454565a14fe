-- ===== src/Runner/Actions.antt =====
-- `JobRunner.start`, `pause`, `resume` and `cancel`.
use tools_tele_t_ng.Base.{
  ℕ, zero, suc, Bool, true, false, not, ◌||◌, none, some, List, [], ◌∷◌, if◌then◌else◌,
}
use tools_tele_t_ng.Models.Clock.{Moment}
use tools_tele_t_ng.Models.Status.{JobCommand, is_completed, is_cancelled, is_paused}
use tools_tele_t_ng.Models.Rows.{Key, Job, JobMode}
use tools_tele_t_ng.Database.{Db}
use tools_tele_t_ng.JobRepo.Jobs.{get, list_children, set_requested_command}
use tools_tele_t_ng.JobRepo.JobLease.{has_live_worker_lease, mark_cancelled_if_unowned}
use tools_tele_t_ng.Manager.Controller
use tools_tele_t_ng.Manager.Controller.{Refusal}
use tools_tele_t_ng.Runner.State.{
  Runner, is_active, register_task, publish_job, job_cancel_requested, job_cancelled,
}

-- How an action ends: an `AutomationError`, an exception of the controller, or no exception. The
-- recursion of `cancel` into branches goes no deeper than its fuel.
pub data Answer : Type 0 where
  automation_error accepted too_deep : Answer
  controller_error : Refusal → Answer

abbrev pub is_parent : Job → Bool
is_parent j = elim j.job_mode [ JobMode.multi_parent ↦ true | _ ↦ false ]

-- `job.status in (JobStatus.COMPLETED, JobStatus.CANCELLED)`
abbrev pub is_over : Job → Bool
is_over j = is_completed j.status || is_cancelled j.status

-- The job itself, or the branches of a parent.
abbrev pub targets : Job → Db → List Job
targets j db = if is_parent j then list_children j.id db else j ∷ []

unfoldable pub start : Key → Runner → Answer × Runner
unfolding is_active register_task
start job_id r = if is_active job_id r then (automation_error, r) else elim (get job_id r.db) [
  | none ↦ (automation_error, r)
  | some job ↦ (accepted, register_task job_id r)
]

abbrev pub with_db : Runner → Db → Runner
with_db r db = record r { db = db }

-- A loop of controller calls: the first that raises ends it, with what was done before kept.
unfoldable pub call_each :
    (Key → Db → Controller.Reply Db) → (Job → Bool) → List Job → Runner → Answer × Runner
call_each call wanted [] r = (accepted, r)
call_each call wanted (j ∷ rest) r = elim (wanted j) [
  | false ↦ call_each call wanted rest r
  | true ↦ elim (call j.id r.db) [
    | Controller.ok db ↦ call_each call wanted rest (with_db r db)
    | Controller.refused e ↦ (controller_error e, r)
  ]
]

unfoldable pub pause : Moment → Key → Runner → Answer × Runner
unfolding call_each
pause now job_id r = elim (get job_id r.db) [
  | none ↦ (automation_error, r)
  | some job ↦ call_each (Controller.pause now) (λ j. not (is_over j)) (targets job r.db) r
]

-- `self.start` follows only if no controller call has raised.
abbrev pub and_start : Key → Answer × Runner → Answer × Runner
and_start job_id (accepted, r) = start job_id r
and_start job_id (answer, r) = (answer, r)

unfoldable pub resume : Moment → Key → Runner → Answer × Runner
unfolding call_each start
resume now job_id r = elim (get job_id r.db) [
  | none ↦ (automation_error, r)
  | some job ↦
      and_start job_id
        (call_each (Controller.resume now) (λ j. is_paused j.status) (targets job r.db) r)
]

-- The part of `cancel` for a job that is no parent.
unfoldable pub cancel_single : Moment → Key → Runner → Answer × Runner
unfolding is_active publish_job
cancel_single now job_id r =
    let asked = with_db r (set_requested_command now job_id JobCommand.cancel r.db) in
    if is_active job_id asked
    then (accepted, publish_job now job_cancel_requested job_id asked)
    else if has_live_worker_lease now job_id asked.db
    then (accepted, publish_job now job_cancel_requested job_id asked)
    else let (db, won) = mark_cancelled_if_unowned now job_id asked.db in
      if won
      then (accepted, publish_job now job_cancelled job_id (with_db asked db))
      else (automation_error, with_db asked db)

-- The loop over the branches, in which the first exception ends `cancel`.
unfoldable pub cancel_each : (Key → Runner → Answer × Runner) → List Job → Runner → Answer × Runner
cancel_each cancel_one [] r = (accepted, r)
cancel_each cancel_one (j ∷ rest) r = elim (is_over j) [
  | true ↦ cancel_each cancel_one rest r
  | false ↦
      let (answer, r') = cancel_one j.id r in
      elim answer [ accepted ↦ cancel_each cancel_one rest r' | other ↦ (other, r') ]
]

abbrev pub and_ask : Moment → Key → Answer × Runner → Answer × Runner
and_ask now job_id (accepted, r) =
    let asked = with_db r (set_requested_command now job_id JobCommand.cancel r.db) in
    (accepted, publish_job now job_cancel_requested job_id asked)
and_ask now job_id (answer, r) = (answer, r)

unfoldable pub cancel : ℕ → Moment → Key → Runner → Answer × Runner
unfolding cancel_single cancel_each
cancel zero now job_id r = (too_deep, r)
cancel (suc depth) now job_id r = elim (get job_id r.db) [
  | none ↦ (automation_error, r)
  | some job ↦
      if is_over job
      then (accepted, r)
      else if is_parent job
      then and_ask now job_id (cancel_each (cancel depth now) (list_children job_id r.db) r)
      else cancel_single now job_id r
]
