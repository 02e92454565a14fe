-- ===== src/Tests/Workers.antt =====
-- The worker's claim, request, answer, pause and release, at concrete tables.
use tools_tele_t_ng.Base.{
  [], ◌≡◌, refl, true, false, ◌&&◌, none, some, List, [], ◌∷◌, find, ◌==◌, if◌then◌else◌, arith,
}
use tools_tele_t_ng.Models.Status.{CheckStatus, JobStatus, JobCommand, is_processing}
use tools_tele_t_ng.Models.Rows.{Key, Job, CheckItem}
use tools_tele_t_ng.Database.{item_key, job_key}
use tools_tele_t_ng.JobRepo.Jobs.{get}
use tools_tele_t_ng.JobRepo.JobLease.{is_job_owned_by}
use tools_tele_t_ng.JobRepo.AccountLeases.{is_account_owned_by, get_account}
use tools_tele_t_ng.LeaseKeeper.Keeper.{has_account, assert_ownership}
use tools_tele_t_ng.ResultRepo.Claims.{claim_row, is_claimed, quarantine_row}
use tools_tele_t_ng.Worker.Core.{claim, release}
use tools_tele_t_ng.Worker.Ownership.{Claimed, claim-Claimed}
use tools_tele_t_ng.Worker.Release.{release-Released}
use tools_tele_t_ng.Worker.Request.{begin_request, handle_response, settle}
use tools_tele_t_ng.Worker.Requests.{IsKept, step-Sent, settle-quarantines}
use tools_tele_t_ng.Worker.Answers.{handle_response-Recorded}
use tools_tele_t_ng.Worker.Machine.{
  Event, turns, stopped, polling, normally, at, step, process, unblocks, begins, answers, others,
  fenced, raises, acquiring,
}
use tools_tele_t_ng.Worker.Turn.{assert_live_owner}
use tools_tele_t_ng.Checkpoint
use tools_tele_t_ng.ResultRepo.Claims
use tools_tele_t_ng.ResultRepo.Items.{is_selectable}
use tools_tele_t_ng.Worker.Answers.{recorded_status, Identified}
use tools_tele_t_ng.Worker.Stopping.{pause_honoured}
use tools_tele_t_ng.Tests.Data.{
  free_job, held_job, pausing_job, waiting, in_work, settled, tables, without_account, one_job,
  one_item, keyed, worker, at_work, keeper, queue, world, found_answer,
}

claim-Claimed_example :
    Claimed 50 7 worker
      (without_account free_job waiting)
      (claim 50 7 worker (without_account free_job waiting))
claim-Claimed_example =
    claim-Claimed 50 7 worker (without_account free_job waiting) free_job (keyed free_job waiting)
      refl (omega arith)

release-Released_example :
    let db = release 50 true false at_work (tables held_job waiting) in
    (false ≡ false → is_job_owned_by 60 7 11 db ≡ false)
    × (true ≡ false
        → at_work.claimed_account ≡ true
        → (account : Key) → has_account at_work.account_key ≡ some account
        → is_account_owned_by 60 account 11 7 db ≡ false)
release-Released_example =
    release-Released 50 60 true false at_work (tables held_job waiting) 7 refl

settle-quarantines_example :
    let db = tables held_job in_work in
    let (ok, s) = settle 100000 none queue 7 in_work 21 found_answer (world db) in
    (ok ≡ false)
    × (find item_key 1 s.db.check_items
        ≡ some (
            if is_claimed 21 in_work
            then quarantine_row 100 130 "Ownership lost while Telegram request was in flight"
                in_work
            else in_work))
    × (s.db.jobs ≡ db.jobs)
unfolding assert_ownership is_job_owned_by get
settle-quarantines_example =
    settle-quarantines 100000 21 7 none queue in_work in_work found_answer
      (world (tables held_job in_work)) keeper refl refl (one_item in_work) refl

handle_response-Recorded_example :
    let db = tables held_job in_work in
    let (ok, s) = handle_response 50000 none queue 7 in_work 21 found_answer (world db) in
    let accepted = is_claimed 21 in_work && ((in_work.job_id == 7) && is_job_owned_by 50 7 11 db) in
    (ok ≡ accepted)
    × (accepted ≡ true
        → (row : CheckItem) × (find item_key 1 s.db.check_items ≡ some row)
          × (row.attempt_count ≡ 1)
          × (row.status ≡ recorded_status queue in_work CheckStatus.found)
          × (is_processing row.status ≡ false)
          × (row.processing_token ≡ none)
          × (CheckStatus.found ≡ CheckStatus.found → Identified found_answer row))
    × (accepted ≡ false → find item_key 1 s.db.check_items ≡ some in_work)
    × (s.db.jobs ≡ held_job ∷ [])
handle_response-Recorded_example =
    handle_response-Recorded 50000 21 7 none queue in_work in_work found_answer
      (world (tables held_job in_work)) (one_item in_work) (one_job held_job) refl

pause_honoured_example :
    let m = step queue 7 (turns 50000) (at polling (world (tables pausing_job waiting))) in
    ((es : List Event) → (process queue 7 es m).phase ≡ stopped normally)
    × (m.world.db.check_items ≡ waiting ∷ [])
    × ((j : Job) × (find job_key 7 m.world.db.jobs ≡ some j)
        × (j.status ≡ JobStatus.paused)
        × (j.worker_id ≡ none)
        × (j.requested_command ≡ JobCommand.none))
pause_honoured_example =
    pause_honoured queue 50000 7 (world (tables pausing_job waiting)) pausing_job refl refl refl
      refl

-- A whole life of the loop: a turn, a request, its answer, a lost lease, and a rival's tables.
abbrev events : List Event
events =
    turns 50000
    ∷ unblocks 50000
    ∷ begins 51000 22
    ∷ answers 52000 none found_answer
    ∷ others (tables free_job settled)
    ∷ fenced 53000
    ∷ raises 54000
    ∷ []

abbrev drawn : Key
drawn = 21

step-Sent_example :
    let db = tables held_job waiting in
    let m = step queue 7 (begins 50000 21) (at (acquiring waiting) (world db)) in
    (waiting ≡ waiting)
    × (drawn ≡ drawn)
    × (is_selectable 50 waiting ≡ true)
    × (is_job_owned_by 50 7 11 db ≡ true)
    × (find item_key 1 m.world.db.check_items ≡ some (claim_row 50 21 waiting))
    × IsKept 50 at_work db
unfolding step begin_request assert_live_owner assert_ownership is_job_owned_by is_account_owned_by
    get get_account Checkpoint.mark_processing Claims.mark_processing
step-Sent_example =
    step-Sent queue 50000 drawn 7 waiting waiting (world (tables held_job waiting)) waiting drawn
      (one_item waiting) (one_job held_job) refl refl
