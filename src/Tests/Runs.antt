-- ===== src/Tests/Runs.antt =====
-- Starting, recovering and ending a run, at concrete tables.
use tools_tele_t_ng.Base.{◌⊎◌, ◌≡◌, refl, true, false, none, some, find, arith}
use tools_tele_t_ng.Models.Status.{JobStatus, is_active, is_processing}
use tools_tele_t_ng.Models.Rows.{Job}
use tools_tele_t_ng.Database.{Db, job_key}
use tools_tele_t_ng.JobRepo.Stats.{tally}
use tools_tele_t_ng.JobRepo.JobLease.{
  is_job_owned_by, has_live_worker_lease, claim_worker, mark_started_if_owned,
}
use tools_tele_t_ng.JobRepo.AccountLeases.{
  has_live_account_lease_for_job, get_account, claim_account, is_account_owned_by,
}
use tools_tele_t_ng.ResultRepo.Items.{has_unfinished_items}
use tools_tele_t_ng.Worker.Machine.{stopped, polling, normally, turns, at, step, Machine}
use tools_tele_t_ng.Manager.Recovery.{recover}
use tools_tele_t_ng.Manager.Settling.{is_attended, recover-Settled}
use tools_tele_t_ng.Manager.Runs.{
  busy_job, paused_job, start_run, conclude, Run, started, after_recovery, claim_and_start,
  after_claim, mark_start, returns,
}
use tools_tele_t_ng.JobRepo.Jobs.{get}
use tools_tele_t_ng.Worker.Core.{claim}
use tools_tele_t_ng.RateLimiter.State.{initialize, reload_from_db}
use tools_tele_t_ng.Manager.Started.{start_run-owned}
use tools_tele_t_ng.Checkpoint
use tools_tele_t_ng.ResultRepo.Claims
use tools_tele_t_ng.Manager.Starting.{start_run_excluded}
use tools_tele_t_ng.Manager.Endings.{IsTruthful, conclude-IsTruthful}
use tools_tele_t_ng.Manager.Controller
use tools_tele_t_ng.Manager.Controller.{ok}
use tools_tele_t_ng.Manager.Commands.{resumed_run_refused}
use tools_tele_t_ng.Manager.Completion.{settled_job_completes}
use tools_tele_t_ng.Worker.Turn.{assert_live_owner}
use tools_tele_t_ng.LeaseKeeper.Keeper.{assert_ownership}
use tools_tele_t_ng.Tests.Data.{
  keyed, free_job, held_job, waiting, in_work, settled, tables, without_account, one_job, at_work,
  queue, world, config,
}

start_run_excluded_example :
    (start_run 50000 config none 12 7 (tables held_job waiting)
      ≡ (busy_job, tables held_job waiting))
    ⊎ (start_run 50000 config none 12 7 (tables held_job waiting)
        ≡ (paused_job, tables held_job waiting))
start_run_excluded_example =
    start_run_excluded 50000 config none 12 7 (tables held_job waiting) held_job 11 100 refl refl
      refl (λ e. ground arith) (λ e. ground arith) (omega arith)

recover-Settled_example :
    let db = tables held_job in_work in
    let db' = recover 200 config 7 db in
    (is_attended 200 7 db ≡ true → db' ≡ db)
    × (is_attended 200 7 db ≡ false
        → (tally 7 is_processing db' ≡ 0)
          × (is_active held_job.status ≡ true
              → (j : Job) × (find job_key 7 db'.jobs ≡ some j)
                × (j.status ≡ JobStatus.paused)
                × (j.worker_id ≡ none)
                × (j.worker_lease_until ≡ none))
          × (is_active held_job.status ≡ false → db'.jobs ≡ db.jobs))
recover-Settled_example = recover-Settled 200 config 7 (tables held_job in_work) held_job refl

conclude-IsTruthful_example :
    IsTruthful 7 false
      (has_unfinished_items 7 (tables held_job settled))
      (is_job_owned_by 50 7 11 (tables held_job settled))
      (conclude 50 7 at_work (tables held_job settled))
conclude-IsTruthful_example =
    conclude-IsTruthful 50 7 at_work (tables held_job settled) held_job (one_job held_job) refl

abbrev finished_run : Run
finished_run = record {
  machine = at (stopped normally) (world (tables held_job settled));
  lost = false;
}

resumed_run_refused_example :
    (db : Db) × (Controller.resume 50 7 (without_account free_job waiting) ≡ ok db)
    × (start_run 60000 config none 12 7 db ≡ (paused_job, recover 60 config 7 db))
unfolding has_live_account_lease_for_job
resumed_run_refused_example =
    resumed_run_refused 50000 60000 config none 12 7 (without_account free_job waiting) free_job
      refl refl refl refl refl refl

-- A paused job without a lease, started with auto resume.
abbrev resting : Db
resting = without_account (record free_job { status = JobStatus.paused }) waiting

abbrev started_machine : Machine
started_machine = elim (start_run 50000 config (some true) 12 7 resting).0 [
  | started m ↦ m
  | _ ↦ at polling (world resting)
]

start_run-owned_example : is_job_owned_by 50 7 12 started_machine.world.db ≡ true
unfolding start_run after_recovery claim_and_start after_claim mark_start recover claim claim_worker
    claim_account get get_account mark_started_if_owned initialize reload_from_db
    has_live_worker_lease has_live_account_lease_for_job Checkpoint.recover_interrupted
    Claims.recover_interrupted
start_run-owned_example =
    start_run-owned 50000 config (some true) 12 7 resting started_machine
      (keyed (record free_job { status = JobStatus.paused }) waiting) (omega arith) refl

settled_job_completes_example :
    let m = step queue 7 (turns 50000) (at polling (world (tables held_job settled))) in
    (m.phase ≡ stopped normally)
    × ((conclude 60 7 m.world.worker m.world.db).0 ≡ returns JobStatus.completed)
unfolding assert_live_owner assert_ownership is_job_owned_by is_account_owned_by get get_account
    has_unfinished_items
settled_job_completes_example =
    settled_job_completes queue 50000 60 7 (world (tables held_job settled)) held_job
      (one_job held_job) refl refl refl refl refl refl refl refl refl refl
