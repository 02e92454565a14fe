-- ===== src/Runner/Registry.antt =====
-- The register of the running tasks: nothing that is asked of the runner makes it lose one.
use tools_tele_t_ng.Base.{ℕ, ◌≡◌, ◌≢◌, List, [], ◌∷◌, map, Option-cases, inl, inr}
use tools_tele_t_ng.Models.Clock.{Moment}
use tools_tele_t_ng.Models.Status.{is_paused}
use tools_tele_t_ng.Models.Rows.{Key, Job}
use tools_tele_t_ng.JobRepo.Jobs.{get, list_children}
use tools_tele_t_ng.Manager.Controller
use tools_tele_t_ng.Runner.State.{
  Task, Runner, pop_task, publish, publish_job, job_update, job_cancelled, job_error,
}
use tools_tele_t_ng.Runner.Actions.{
  Answer, automation_error, accepted, controller_error, targets, with_db, start, call_each, pause,
  and_start, resume, cancel,
}
use tools_tele_t_ng.Runner.Parents.{
  verdict, write_verdict, open_parent, close_parent, Ended, finished, task_cancelled, errored,
  close_job,
}
use tools_tele_t_ng.Runner.Tasks.{
  Runs, publish_job-tasks, Runs-is_active, start-Runs, call_each-tasks, cancel-tasks,
  start_branches-Runs, pop_task-Runs, same_tasks-Runs,
}

-- What is asked of the runner, and what its tasks come to.
pub data RunnerCall : Type 0 where
  starts pauses resumes opens closes_parent : Key → RunnerCall
  cancels : ℕ → Key → RunnerCall
  closes_job : Key → Ended → RunnerCall

unfoldable pub runner_call : Moment → RunnerCall → Runner → Runner
runner_call now (starts k) r = (start k r).1
runner_call now (pauses k) r = (pause now k r).1
runner_call now (resumes k) r = (resume now k r).1
runner_call now (opens k) r = open_parent k r
runner_call now (closes_parent k) r = close_parent now k r
runner_call now (cancels depth k) r = (cancel depth now k r).1
runner_call now (closes_job k ended) r = close_job now k ended r

abbrev pub run_runner_calls : List (Moment × RunnerCall) → Runner → Runner
run_runner_calls [] r = r
run_runner_calls ((now, c) ∷ cs) r = run_runner_calls cs (runner_call now c r)

-- The task of this job does not come to its end.
abbrev pub Ends : Key → RunnerCall → Type 0
Ends job_id (closes_parent k) = k ≡ job_id
Ends job_id (closes_job k ended) = k ≡ job_id
Ends job_id _ = ⊥

abbrev pub NoneEnds : Key → List (Moment × RunnerCall) → Type 0
NoneEnds job_id [] = Unit {0}
NoneEnds job_id ((now, c) ∷ cs) = (¬ (Ends job_id c)) × NoneEnds job_id cs

pause-tasks : (now : Moment) (k : Key) (r : Runner) → (pause now k r).1.tasks ≡ r.tasks
unfolding pause
pause-tasks now k r = elim (Option-cases (get k r.db)) [
  | inl gone ↦ rw (gone, pause)
  | inr (j, here) ↦ rw (here, pause) (call_each-tasks (Controller.pause now) _ (targets j r.db) r)
]

and_start-Runs : (t : Task) (k : Key) (x : Answer × Runner) → Runs t x.1 → Runs t (and_start k x).1
and_start-Runs t k (accepted, r) runs = start-Runs t k r runs
and_start-Runs t k (Answer.automation_error, r) runs = runs
and_start-Runs t k (Answer.too_deep, r) runs = runs
and_start-Runs t k (controller_error e, r) runs = runs

resume-Runs :
    (t : Task) (now : Moment) (k : Key) (r : Runner) → Runs t r → Runs t (resume now k r).1
unfolding resume
resume-Runs t now k r runs = elim (Option-cases (get k r.db)) [
  | inl gone ↦ rw (gone, resume) runs
  | inr (j, here) ↦
      let each = call_each (Controller.resume now) (λ j. is_paused j.status) (targets j r.db) r in
      rw (here, resume)
        (and_start-Runs t k each (
          same_tasks-Runs t r each.1
            (call_each-tasks (Controller.resume now) (λ j. is_paused j.status) (targets j r.db) r)
            runs))
]

-- The `finally` of a task of another job.
left-Runs :
    (t : Task) (now : Moment) (k : Key) (r : Runner)
    → k ≢ t.job_id
    → Runs t r
    → Runs t (publish_job now job_update k (pop_task k r))
left-Runs t now k r other runs =
    same_tasks-Runs t (pop_task k r) (publish_job now job_update k (pop_task k r))
      (publish_job-tasks now job_update k (pop_task k r)) (pop_task-Runs t k r other runs)

close_parent-Runs :
    (t : Task) (now : Moment) (k : Key) (r : Runner)
    → k ≢ t.job_id
    → Runs t r
    → Runs t (close_parent now k r)
unfolding close_parent
close_parent-Runs t now k r other runs =
    left-Runs t now k
      (with_db r
        (write_verdict now k (verdict (map (λ (j : Job). j.status) (list_children k r.db))) r.db))
      other runs

close_job-Runs :
    (t : Task) (now : Moment) (k : Key) (ended : Ended) (r : Runner)
    → k ≢ t.job_id
    → Runs t r
    → Runs t (close_job now k ended r)
unfolding close_job
close_job-Runs t now k finished r other runs = left-Runs t now k r other runs
close_job-Runs t now k task_cancelled r other runs =
    left-Runs t now k (publish_job now job_cancelled k r) other (
      same_tasks-Runs t r (publish_job now job_cancelled k r)
        (publish_job-tasks now job_cancelled k r) runs)
close_job-Runs t now k errored r other runs = left-Runs t now k (publish (job_error k) r) other runs

runner_call-Runs :
    (t : Task) (now : Moment) (c : RunnerCall) (r : Runner)
    → ¬ (Ends t.job_id c)
    → Runs t r
    → Runs t (runner_call now c r)
unfolding runner_call open_parent
runner_call-Runs t now (starts k) r stays runs = start-Runs t k r runs
runner_call-Runs t now (pauses k) r stays runs =
    same_tasks-Runs t r (pause now k r).1 (pause-tasks now k r) runs
runner_call-Runs t now (resumes k) r stays runs = resume-Runs t now k r runs
runner_call-Runs t now (opens k) r stays runs = start_branches-Runs t (list_children k r.db) r runs
runner_call-Runs t now (closes_parent k) r stays runs = close_parent-Runs t now k r stays runs
runner_call-Runs t now (cancels depth k) r stays runs =
    same_tasks-Runs t r (cancel depth now k r).1 (cancel-tasks depth now k r) runs
runner_call-Runs t now (closes_job k ended) r stays runs = close_job-Runs t now k ended r stays runs

-- One task to a job, and no task lost: a task that runs stays the registered task of its job whatever
-- is started, paused, resumed and cancelled, for this job or for others, and whatever parents open and
-- other tasks end, until it ends itself; so no second task of the job is started meanwhile.
pub run_runner_calls-Runs :
    (t : Task) (cs : List (Moment × RunnerCall)) (r : Runner)
    → NoneEnds t.job_id cs
    → Runs t r
    → let r' = run_runner_calls cs r in Runs t r' × (start t.job_id r' ≡ (automation_error, r'))
unfolding start
run_runner_calls-Runs t [] r stay runs = (runs, rw (Runs-is_active t r runs))
run_runner_calls-Runs t ((now, c) ∷ cs) r stay runs =
    run_runner_calls-Runs t cs (runner_call now c r) stay.1 (runner_call-Runs t now c r stay.0 runs)
