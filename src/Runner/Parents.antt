-- ===== src/Runner/Parents.antt =====
-- `_run_multi_parent` and `_run_job`: what a parent starts, and what its branches make of it.
use tools_tele_t_ng.Base.{Bool, true, false, ◌&&◌, ◌||◌, List, [], ◌∷◌, map, if◌then◌else◌}
use tools_tele_t_ng.Models.Clock.{Moment}
use tools_tele_t_ng.Models.Status.{JobStatus, is_completed, is_cancelled, is_paused}
use tools_tele_t_ng.Models.Rows.{Key, Job}
use tools_tele_t_ng.Database.{Db}
use tools_tele_t_ng.JobRepo.Jobs.{list_children, update_status, mark_finished}
use tools_tele_t_ng.JobRepo.JobLease.{mark_cancelled_if_unowned}
use tools_tele_t_ng.Runner.State.{
  Runner, is_active, register_task, pop_task, publish, publish_job, job_update, job_cancelled,
  job_error,
}
use tools_tele_t_ng.Runner.Actions.{is_over, with_db}

abbrev pub is_failed : JobStatus → Bool
is_failed JobStatus.failed = true
is_failed _ = false

abbrev pub any_of {ℓ} : {A : Type ℓ} → (A → Bool) → List A → Bool
any_of p [] = false
any_of p (x ∷ xs) = p x || any_of p xs

abbrev pub all_of {ℓ} : {A : Type ℓ} → (A → Bool) → List A → Bool
all_of p [] = true
all_of p (x ∷ xs) = p x && all_of p xs

abbrev pub is_some {ℓ} : {A : Type ℓ} → List A → Bool
is_some [] = false
is_some (_ ∷ _) = true

-- The tasks of the branches that can run and do not run yet.
unfoldable pub start_branches : List Job → Runner → Runner
unfolding is_active register_task
start_branches [] r = r
start_branches (j ∷ rest) r =
    start_branches rest
      (if is_over j then r else if is_active j.id r then r else register_task j.id r)

unfoldable pub open_parent : Key → Runner → Runner
unfolding start_branches
open_parent parent_id r = start_branches (list_children parent_id r.db) r

-- What is written of the statuses of the branches, if anything is.
pub data Verdict : Type 0 where
  all_completed all_cancelled some_paused some_failed undecided : Verdict

unfoldable pub verdict : List JobStatus → Verdict
verdict statuses =
    if is_some statuses && all_of is_completed statuses
    then all_completed
    else if is_some statuses && all_of is_cancelled statuses
    then all_cancelled
    else if any_of is_paused statuses
    then some_paused
    else if any_of is_failed statuses
    then some_failed
    else undecided

abbrev pub write_verdict : Moment → Key → Verdict → Db → Db
write_verdict now parent_id all_completed db = mark_finished now parent_id db
write_verdict now parent_id all_cancelled db = (mark_cancelled_if_unowned now parent_id db).0
write_verdict now parent_id some_paused db = update_status now parent_id JobStatus.paused db
write_verdict now parent_id some_failed db = update_status now parent_id JobStatus.failed db
write_verdict now parent_id undecided db = db

-- Behind the `gather` of the branches, with the `finally`.
unfoldable pub close_parent : Moment → Key → Runner → Runner
unfolding verdict pop_task publish_job
close_parent now parent_id r =
    let statuses = map (λ (j : Job). j.status) (list_children parent_id r.db) in
    publish_job now job_update parent_id
      (pop_task parent_id (with_db r (write_verdict now parent_id (verdict statuses) r.db)))

-- How `manager.run` of a branch or a single job ended: by a status, by the cancellation of the task,
-- or by another exception.
pub data Ended : Type 0 where
  finished task_cancelled errored : Ended

unfoldable pub close_job : Moment → Key → Ended → Runner → Runner
unfolding pop_task publish_job
close_job now job_id finished r = publish_job now job_update job_id (pop_task job_id r)
close_job now job_id task_cancelled r =
    publish_job now job_update job_id (pop_task job_id (publish_job now job_cancelled job_id r))
close_job now job_id errored r =
    publish_job now job_update job_id (pop_task job_id (publish (job_error job_id) r))
