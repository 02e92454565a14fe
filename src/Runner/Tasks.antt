-- ===== src/Runner/Tasks.antt =====
-- What the steps of the runner do to its tasks.
use tools_tele_t_ng.Base.{
  ℕ, zero, suc, ◌≡◌, ◌≢◌, refl, ◌∙◌, Bool, true, false, some, List, [], ◌∷◌, find, without,
  find-without, find-append, arith, Option-cases, Bool-cases, inl, inr, either_branch,
}
use tools_tele_t_ng.Models.Clock.{Moment}
use tools_tele_t_ng.Models.Status.{JobCommand}
use tools_tele_t_ng.Models.Rows.{Key, Job}
use tools_tele_t_ng.Database.{Db}
use tools_tele_t_ng.JobRepo.Jobs.{get, list_children, set_requested_command}
use tools_tele_t_ng.JobRepo.JobLease.{mark_cancelled_if_unowned}
use tools_tele_t_ng.Manager.Controller
use tools_tele_t_ng.Runner.State.{
  Task, Runner, Kind, task_job, is_active, register_task, pop_task, publish_job,
  job_cancel_requested, job_cancelled,
}
use tools_tele_t_ng.Runner.Actions.{
  Answer, accepted, controller_error, is_over, is_parent, with_db, start, call_each, cancel_single,
  cancel_each, and_ask, cancel,
}
use tools_tele_t_ng.Runner.Parents.{start_branches}

-- The task of the job is registered and runs.
abbrev pub Runs : Task → Runner → Type 0
Runs t r = (find task_job t.job_id r.tasks ≡ some t) × (t.done ≡ false)

pub publish_job-tasks :
    (now : Moment) (kind : Kind) (job_id : Key) (r : Runner)
    → (publish_job now kind job_id r).tasks ≡ r.tasks
unfolding publish_job
publish_job-tasks now kind job_id r = ground arith

-- A task of another job is registered.
register_task-Runs :
    (t : Task) (job_id : Key) (r : Runner)
    → job_id ≢ t.job_id
    → Runs t r
    → Runs t (register_task job_id r)
unfolding register_task
register_task-Runs t job_id r other runs =
    let added : Task = record { job_id = job_id; serial = r.next_serial; done = false } in
    (
      ground (
        arith,
        find-append task_job t.job_id (without task_job job_id r.tasks) added,
        find-without task_job t.job_id job_id r.tasks,
      ),
      runs.1,
    )

-- A task that runs makes its job active.
pub Runs-is_active : (t : Task) (r : Runner) → Runs t r → is_active t.job_id r ≡ true
unfolding is_active
Runs-is_active t r runs = ground arith

idle-ne :
    (t : Task) (job_id : Key) (r : Runner)
    → Runs t r
    → is_active job_id r ≡ false
    → job_id ≢ t.job_id
unfolding is_active
idle-ne t job_id r runs idle = ground arith

pub start-Runs : (t : Task) (job_id : Key) (r : Runner) → Runs t r → Runs t (start job_id r).1
unfolding start
start-Runs t job_id r runs = elim (Bool-cases (is_active job_id r)) [
  | inl active ↦ rw active runs
  | inr idle ↦ elim (Option-cases (get job_id r.db)) [
    | inl gone ↦ rw (idle, start) (rw gone runs)
    | inr (j, here) ↦
        rw (idle, start)
          (rw here (register_task-Runs t job_id r (idle-ne t job_id r runs idle) runs))
  ]
]

pub call_each-tasks :
    (call : Key → Db → Controller.Reply Db) (wanted : Job → Bool) (js : List Job) (r : Runner)
    → (call_each call wanted js r).1.tasks ≡ r.tasks
unfolding call_each
call_each-tasks call wanted [] r = refl
call_each-tasks call wanted (j ∷ rest) r = elim (Bool-cases (wanted j)) [
  | inr skip ↦ rw (skip, call_each) (call_each-tasks call wanted rest r)
  | inl go ↦
      rw (go, call_each) (called (call j.id r.db) r rest (λ v. call_each-tasks call wanted rest v))
]
  where
    called :
        (reply : Controller.Reply Db) (r : Runner) (rest : List Job)
        → ((v : Runner) → (call_each call wanted rest v).1.tasks ≡ v.tasks)
        → (elim reply as (λ _. Answer × Runner) [
          | Controller.ok db ↦ call_each call wanted rest (with_db r db)
          | Controller.refused e ↦ (controller_error e, r)
        ]).1.tasks
          ≡ r.tasks
    called (Controller.ok db) r rest ih = ih (with_db r db)
    called (Controller.refused e) r rest ih = refl

abbrev asked_runner : Moment → Key → Runner → Runner
asked_runner now job_id r = with_db r (set_requested_command now job_id JobCommand.cancel r.db)

cancel_single-tasks :
    (now : Moment) (job_id : Key) (r : Runner) → (cancel_single now job_id r).1.tasks ≡ r.tasks
unfolding cancel_single
cancel_single-tasks now job_id r = ground (
  arith,
  publish_job-tasks now job_cancel_requested job_id (asked_runner now job_id r),
  publish_job-tasks now job_cancelled job_id (
      with_db (asked_runner now job_id r)
        (mark_cancelled_if_unowned now job_id (asked_runner now job_id r).db).0),
)

cancel_each-tasks :
    (cancel_one : Key → Runner → Answer × Runner) (js : List Job) (r : Runner)
    → ((k : Key) (v : Runner) → (cancel_one k v).1.tasks ≡ v.tasks)
    → (cancel_each cancel_one js r).1.tasks ≡ r.tasks
unfolding cancel_each
cancel_each-tasks cancel_one [] r h = refl
cancel_each-tasks cancel_one (j ∷ rest) r h = elim (Bool-cases (is_over j)) [
  | inl over ↦ rw (over, cancel_each) (cancel_each-tasks cancel_one rest r h)
  | inr open_still ↦
      rw (open_still, cancel_each)
        (went_on (cancel_each-tasks cancel_one rest (cancel_one j.id r).1 h) (cancel_one j.id r).0
          ∙ h j.id r)
]
  where
    went_on :
        ((cancel_each cancel_one rest (cancel_one j.id r).1).1.tasks ≡ (cancel_one j.id r).1.tasks)
        → (answer : Answer)
        → (elim answer as (λ _. Answer × Runner) [
          | accepted ↦ cancel_each cancel_one rest (cancel_one j.id r).1
          | other ↦ (other, (cancel_one j.id r).1)
        ]).1.tasks
          ≡ (cancel_one j.id r).1.tasks
    went_on ih accepted = ih
    went_on ih Answer.automation_error = refl
    went_on ih Answer.too_deep = refl
    went_on ih (controller_error e) = refl

and_ask-tasks :
    (now : Moment) (job_id : Key) (x : Answer × Runner) → (and_ask now job_id x).1.tasks ≡ x.1.tasks
and_ask-tasks now job_id (accepted, r) =
    publish_job-tasks now job_cancel_requested job_id (asked_runner now job_id r)
and_ask-tasks now job_id (Answer.automation_error, r) = refl
and_ask-tasks now job_id (Answer.too_deep, r) = refl
and_ask-tasks now job_id (controller_error e, r) = refl

pub cancel-tasks :
    (depth : ℕ) (now : Moment) (job_id : Key) (r : Runner)
    → (cancel depth now job_id r).1.tasks ≡ r.tasks
unfolding cancel
cancel-tasks zero now job_id r = refl
cancel-tasks (suc depth) now job_id r = elim (Option-cases (get job_id r.db)) [
  | inl gone ↦ rw (gone, cancel)
  | inr (j, here) ↦
      let P : Answer × Runner → Type 0 = λ x. x.1.tasks ≡ r.tasks in
      rw (here, cancel)
        (either_branch P (is_over j) refl (
          either_branch P (is_parent j)
            (and_ask-tasks now job_id (cancel_each (cancel depth now) (list_children job_id r.db) r)
              ∙ cancel_each-tasks (cancel depth now) (list_children job_id r.db) r
                  (λ k v. cancel-tasks depth now k v))
            (cancel_single-tasks now job_id r)))
]

pub start_branches-Runs :
    (t : Task) (js : List Job) (r : Runner) → Runs t r → Runs t (start_branches js r)
unfolding start_branches
start_branches-Runs t [] r runs = runs
start_branches-Runs t (j ∷ rest) r runs =
    start_branches-Runs t rest _ (elim (Bool-cases (is_active j.id r)) [
      | inl active ↦ rw active (either_branch (Runs t) (is_over j) runs runs)
      | inr idle ↦ rw idle (
          either_branch (Runs t) (is_over j) runs
            (register_task-Runs t j.id r (idle-ne t j.id r runs idle) runs))
    ])

pub pop_task-Runs :
    (t : Task) (job_id : Key) (r : Runner)
    → job_id ≢ t.job_id
    → Runs t r
    → Runs t (pop_task job_id r)
unfolding pop_task
pop_task-Runs t job_id r other runs =
    (ground (arith, find-without task_job t.job_id job_id r.tasks), runs.1)

-- `Runs` looks at the tasks alone.
pub same_tasks-Runs : (t : Task) (r v : Runner) → v.tasks ≡ r.tasks → Runs t r → Runs t v
same_tasks-Runs t r v e runs = (rw e runs.0, runs.1)
