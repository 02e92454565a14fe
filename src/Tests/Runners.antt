-- ===== src/Tests/Runners.antt =====
-- The web runner, at a job that runs and a job that waits.
use tools_tele_t_ng.Base.{◌≡◌, refl, false, some, List, [], ◌∷◌, find, if◌then◌else◌, arith}
use tools_tele_t_ng.Models.Clock.{Moment}
use tools_tele_t_ng.Database.{job_key}
use tools_tele_t_ng.JobRepo.JobLease.{cancel_row}
use tools_tele_t_ng.Runner.State.{Runner, Task}
use tools_tele_t_ng.Runner.Actions.{accepted, automation_error, start, cancel}
use tools_tele_t_ng.Runner.Parents.{finished}
use tools_tele_t_ng.Runner.Cancelling.{is_attended_job, asked, cancel_lem}
use tools_tele_t_ng.Runner.Registry
use tools_tele_t_ng.Runner.Tasks.{Runs}
use tools_tele_t_ng.Runner.Registry.{RunnerCall, run_runner_calls, run_runner_calls-Runs}
use tools_tele_t_ng.Tests.Data.{free_job, held_job, waiting, tables, one_job}

abbrev idle_runner : Runner
idle_runner = record { db = tables free_job waiting; tasks = []; next_serial = 1; events = [] }

cancel_lem_example :
    let (answer, r') = cancel 2 10 7 idle_runner in
    (answer ≡ accepted)
    × (find job_key 7 r'.db.jobs
        ≡ some (
            if is_attended_job 10 free_job idle_runner
            then asked 10 free_job
            else cancel_row 10 (asked 10 free_job)))
cancel_lem_example =
    cancel_lem 1 10 free_job idle_runner (one_job free_job) refl refl refl (λ e. ground arith)

abbrev running_task : Task
running_task = record { job_id = 7; serial = 0; done = false }

abbrev busy_runner : Runner
busy_runner = record idle_runner { db = tables held_job waiting; tasks = running_task ∷ [] }

abbrev runner_calls : List (Moment × RunnerCall)
runner_calls =
    (10, Registry.starts 7)
    ∷ (20, Registry.pauses 7)
    ∷ (30, Registry.cancels 2 7)
    ∷ (40, Registry.closes_job 9 finished)
    ∷ []

run_runner_calls-Runs_example :
    let r' = run_runner_calls runner_calls busy_runner in
    Runs running_task r' × (start 7 r' ≡ (automation_error, r'))
run_runner_calls-Runs_example =
    run_runner_calls-Runs running_task runner_calls busy_runner
      (λ e. e, (λ e. e, (λ e. e, (λ e. ground arith, tt)))) (refl, refl)
