-- ===== src/Tests/Items.antt =====
-- The claims, writes and quarantines of items, at concrete tables.
use tools_tele_t_ng.Base.{none, ◌≡◌, ◌≢◌, ◌↔◌, refl, true, false, some, List, [], ◌∷◌, find, arith}
use tools_tele_t_ng.Models.Clock.{Moment}
use tools_tele_t_ng.Models.Status.{CheckStatus}
use tools_tele_t_ng.Models.Rows.{Key}
use tools_tele_t_ng.Database.{item_key}
use tools_tele_t_ng.JobRepo.Jobs.{get}
use tools_tele_t_ng.JobRepo.JobLease.{is_job_owned_by}
use tools_tele_t_ng.ResultRepo.Items.{next_due_item}
use tools_tele_t_ng.ResultRepo.Claims.{anyone, worker_of, mark_processing, recover_interrupted}
use tools_tele_t_ng.ResultRepo.Results.{Outcome, plain, settle_row, save_result}
use tools_tele_t_ng.ResultRepo.Fencing.{guards_of, save_result-fenced}
use tools_tele_t_ng.ResultRepo.Lifecycle.{
  ItemCall, imports, claims, settles, quarantines, recovers, run_item_calls, run_item_calls-settled,
  stale_write_refused,
}
use tools_tele_t_ng.Validation.Checks.{
  scan, item_findings, validate_database_state, processing_without_token, job_findings,
  paused_account_findings, unfinished_findings, owner_findings, account_findings,
}
use tools_tele_t_ng.Validation.Soundness.{run_item_calls-clean}
use tools_tele_t_ng.Tests.Data.{
  without_account, held_job, waiting, in_work, settled, tables, one_job, one_item,
}

abbrev found : Outcome
found = record (plain CheckStatus.found) { attempt_count = some 1; completed = true }

save_result-fenced_example :
    let (db', written) = save_result 50 1 found (guards_of 21 7 11) (tables held_job in_work) in
    ((written ≡ true) ↔ (
      (in_work.status ≡ CheckStatus.processing)
      × (in_work.processing_token ≡ some 21)
      × (in_work.job_id ≡ 7)
      × (is_job_owned_by 50 7 11 (tables held_job in_work) ≡ true)))
    × (written ≡ true → find item_key 1 db'.check_items ≡ some (settle_row 50 found in_work))
    × (written ≡ false → db' ≡ tables held_job in_work)
save_result-fenced_example =
    save_result-fenced 50 1 (tables held_job in_work) in_work found 21 7 11 (one_item in_work)
      (one_job held_job) refl

-- The write is made, and not with another token, nor after the lease.
fresh_write : (save_result 50 1 found (guards_of 21 7 11) (tables held_job in_work)).1 ≡ true
unfolding save_result
fresh_write = refl

wrong_token : (save_result 50 1 found (guards_of 22 7 11) (tables held_job in_work)).1 ≡ false
unfolding save_result
wrong_token = refl

late_write : (save_result 100 1 found (guards_of 21 7 11) (tables held_job in_work)).1 ≡ false
unfolding save_result
late_write = refl

stale_write_refused_example :
    let db = (mark_processing 50 22 1 (worker_of 7 11) (tables held_job waiting)).0 in
    save_result 60 1 found (guards_of 21 7 11) db ≡ (db, false)
unfolding mark_processing
stale_write_refused_example =
    stale_write_refused 50 60 1 (tables held_job waiting) waiting found 21 22 7 11 (worker_of 7 11)
      (one_item waiting) refl (λ e. ground arith) refl

abbrev history : List (Moment × ItemCall)
history =
    (10, imports 7 "+84900000000" "+84900000000" 5)
    ∷ (20, claims 21 1 anyone)
    ∷ (30, settles 1 found 21 anyone)
    ∷ (40, quarantines 1 21 70)
    ∷ (50, recovers 7 80)
    ∷ []

run_item_calls-settled_example :
    (find item_key 1 (run_item_calls history (tables held_job settled)).check_items ≡ some settled)
    × ((now : Moment) (job : Key)
        → next_due_item now job (run_item_calls history (tables held_job settled)) ≢ some settled)
run_item_calls-settled_example =
    run_item_calls-settled 1 settled history (tables held_job settled) refl refl

one_recovered : (recover_interrupted 50 7 80 (tables held_job in_work)).1 ≡ 1
unfolding recover_interrupted
one_recovered = refl

-- The history under a token that is not empty and with an outcome that is completed.
run_item_calls-clean_example :
    scan item_findings (run_item_calls history (tables held_job waiting)).check_items ≡ []
unfolding item_findings
run_item_calls-clean_example =
    run_item_calls-clean history (tables held_job waiting)
      (tt, (λ e. ground arith, ((refl, refl, refl), (tt, (tt, tt))))) refl

-- The check does find a PROCESSING item without a token.
tokenless :
    validate_database_state 50
      (without_account held_job (record in_work { processing_token = none }))
    ≡ processing_without_token 1 ∷ []
unfolding validate_database_state job_findings paused_account_findings item_findings
    unfinished_findings owner_findings account_findings get
tokenless = refl
