-- ===== src/Tests/Leases.antt =====
-- The leases of jobs and accounts, at concrete tables.
use tools_tele_t_ng.Base.{◌≡◌, refl, true, false, none, some, List, [], ◌∷◌, arith}
use tools_tele_t_ng.Models.Clock.{Moment}
use tools_tele_t_ng.Models.Status.{JobStatus}
use tools_tele_t_ng.JobRepo.Jobs.{get}
use tools_tele_t_ng.JobRepo.JobLease.{claim_worker, is_job_owned_by}
use tools_tele_t_ng.JobRepo.AccountLeases.{is_account_owned_by}
use tools_tele_t_ng.JobRepo.Exclusion
use tools_tele_t_ng.JobRepo.Exclusion.{lease_cell, JobCall, run_calls, run_calls-is_job_owned_by}
use tools_tele_t_ng.JobRepo.Lock.{run_lock, run_calls-refines}
use tools_tele_t_ng.JobRepo.AccountExclusion
use tools_tele_t_ng.JobRepo.AccountExclusion.{
  AccountCall, run_account_calls, run_account_calls-is_account_owned_by,
}
use tools_tele_t_ng.Tests.Data.{held_job, waiting, tables}

-- A rival claims, renews, releases and forces a status while worker 11 holds the lease until 100.
abbrev rivals : List (Moment × JobCall)
rivals =
    (10, Exclusion.claims 7 12 60 2)
    ∷ (20, Exclusion.renews 7 12 60)
    ∷ (30, Exclusion.releases 7 12)
    ∷ (40, Exclusion.forces_status 7 JobStatus.paused)
    ∷ []

run_calls-is_job_owned_by_example :
    is_job_owned_by 50 7 11 (run_calls rivals (tables held_job waiting)) ≡ true
run_calls-is_job_owned_by_example =
    run_calls-is_job_owned_by 7 11 100 rivals (tables held_job waiting) refl
      (
        omega arith,
        λ e. ground arith,
        (
          omega arith,
          λ e. ground arith,
          (omega arith, λ e. ground arith, (omega arith, λ e. ground arith, tt)),
        ),
      )
      50 (omega arith)

-- The same calls do take the job over once the lease and the grace are past.
takes_over : (claim_worker 102 7 12 60 2 (tables held_job waiting)).1 ≡ true
unfolding claim_worker get
takes_over = refl

within_grace : (claim_worker 101 7 12 60 2 (tables held_job waiting)).1 ≡ false
unfolding claim_worker get
within_grace = refl

abbrev account_rivals : List (Moment × AccountCall)
account_rivals =
    (10, AccountExclusion.claims 5 12 8 60 2)
    ∷ (20, AccountExclusion.renews 5 12 8 60)
    ∷ (30, AccountExclusion.releases 5 12 none)
    ∷ []

run_account_calls-is_account_owned_by_example :
    is_account_owned_by 50 5 11 7 (run_account_calls account_rivals (tables held_job waiting))
    ≡ true
run_account_calls-is_account_owned_by_example =
    run_account_calls-is_account_owned_by 5 11 100 7 account_rivals (tables held_job waiting) refl
      (
        omega arith,
        λ e. ground arith,
        (omega arith, λ e. ground arith, (omega arith, λ e. ground arith, tt)),
      )
      50 (omega arith)

run_calls-refines_example :
    lease_cell 7 (run_calls rivals (tables held_job waiting))
    ≡ some (run_lock 7 rivals (some 11, some 100))
run_calls-refines_example =
    run_calls-refines 7 rivals (tables held_job waiting) (some 11, some 100) refl

-- The lock keeps its holder through the rivals' calls.
rivals_lose : run_lock 7 rivals (some 11, some 100) ≡ (some 11, some 100)
rivals_lose = refl
