-- ===== src/JobRepo/Exclusion.antt =====
-- While a worker's lease on a job runs, no other worker and no recovery takes the job from it.
use tools_tele_t_ng.Base.{
  ap, ◌∙◌, ==_iff, ℕ, ◌+◌, ◌≡◌, refl, ◌≢◌, ◌<◌, Bool, true, false, ◌&&◌, Option, none, some, List,
  [], ◌∷◌, String, find, find-key, find-update_where, holds, ◌==◌, arith, inl, inr, Option-cases,
  Bool-cases,
}
use tools_tele_t_ng.Models.Clock.{Moment}
use tools_tele_t_ng.Models.Status.{JobStatus, JobCommand}
use tools_tele_t_ng.Models.Rows.{Key, Job}
use tools_tele_t_ng.Database.{Db, job_key, update_jobs}
use tools_tele_t_ng.JobRepo.Jobs.{
  get, update_status, set_requested_command, touch_heartbeat, record_job_error, mark_started,
  mark_finished,
}
use tools_tele_t_ng.JobRepo.JobLease.{
  is_unheld, set_lease, extend_lease, claim_worker, renew_worker, release_worker,
  update_status_if_owned, record_job_error_if_owned, mark_started_if_owned, mark_finished_if_owned,
  mark_cancelled_if_owned, mark_cancelled_if_unowned, is_job_owned_by,
}
use tools_tele_t_ng.JobRepo.Control.{set_pause_requested, acknowledge_pause, clear_pause_state}
use tools_tele_t_ng.JobRepo.Stats.{reconcile_stats}

-- Every method of the repository that writes to `jobs`, but `create` and the forced release, with
-- the arguments that it takes besides the clock.
pub data JobCall : Type 0 where
  claims : Key → Key → ℕ → ℕ → JobCall
  renews : Key → Key → ℕ → JobCall
  releases acknowledges starts finishes cancels : Key → Key → JobCall
  sets_status : Key → Key → JobStatus → JobCall
  records_error : Key → Key → String → Option String → JobCall
  cancels_unowned forces_start forces_finish requests_pause clears_pause reconciles touches :
      Key → JobCall
  forces_status : Key → JobStatus → JobCall
  requests : Key → JobCommand → JobCall
  forces_error : Key → String → Option String → JobCall

unfoldable pub call : Moment → JobCall → Db → Db
call now (claims job worker lease grace) db = (claim_worker now job worker lease grace db).0
call now (renews job worker lease) db = (renew_worker now job worker lease db).0
call now (releases job worker) db = release_worker now job worker db
call now (acknowledges job worker) db = acknowledge_pause now job worker db
call now (starts job worker) db = (mark_started_if_owned now job worker db).0
call now (finishes job worker) db = (mark_finished_if_owned now job worker db).0
call now (cancels job worker) db = (mark_cancelled_if_owned now job worker db).0
call now (sets_status job worker s) db = (update_status_if_owned now job worker s db).0
call now (records_error job worker t m) db = (record_job_error_if_owned now job worker t m db).0
call now (cancels_unowned job) db = (mark_cancelled_if_unowned now job db).0
call now (forces_start job) db = mark_started now job db
call now (forces_finish job) db = mark_finished now job db
call now (requests_pause job) db = set_pause_requested now job db
call now (clears_pause job) db = clear_pause_state now job db
call now (reconciles job) db = reconcile_stats now job db
call now (touches job) db = touch_heartbeat now job db
call now (forces_status job s) db = update_status now job s db
call now (requests job c) db = set_requested_command now job c db
call now (forces_error job t m) db = record_job_error now job t m db

-- The worker that makes the call, if the call names one.
abbrev pub caller : JobCall → Option Key
caller (claims job worker lease grace) = some worker
caller (renews job worker lease) = some worker
caller (releases job worker) = some worker
caller (acknowledges job worker) = some worker
caller (starts job worker) = some worker
caller (finishes job worker) = some worker
caller (cancels job worker) = some worker
caller (sets_status job worker s) = some worker
caller (records_error job worker t m) = some worker
caller _ = none

-- What the database says of a job's lease.
abbrev pub lease_cell : Key → Db → Option (Option Key × Option Moment)
lease_cell job db = elim (find job_key job db.jobs) [
  | none ↦ none
  | some j ↦ some (j.worker_id, j.worker_lease_until)
]

-- An UPDATE of `jobs` keeps the lease of a job if it keeps that of the job's row.
update_jobs-lease_cell :
    (job : Key) (p : Job → Bool) (f : Job → Job) (db : Db) (worker until : Option ℕ)
    → lease_cell job db ≡ some (worker, until)
    → ((j : Job) → job_key (f j) ≡ job_key j)
    → ((j : Job)
        → j.id ≡ job
        → j.worker_id ≡ worker
        → j.worker_lease_until ≡ until
        → p j ≡ true
        → ((f j).worker_id ≡ worker) × ((f j).worker_lease_until ≡ until))
    → lease_cell job (update_jobs p f db) ≡ some (worker, until)
update_jobs-lease_cell job p f db worker until e k h =
    elim (Option-cases (find job_key job db.jobs)) [
      | inl gone ↦ ground (arith)
      | inr (j, here) ↦ ground (
        arith,
        find-update_where job_key job p f db.jobs k,
        find-key job_key job db.jobs j here,
        h j,
      )
    ]

module _ (job worker until now : ℕ) (db : Db)
    (held : lease_cell job db ≡ some (some worker, some until)) (running : now < until) where
  -- An UPDATE that leaves the two columns of the lease alone.
  keeps_columns :
      (p : Job → Bool) (f : Job → Job)
      → ((j : Job)
          → (job_key (f j) ≡ job_key j)
            × ((f j).worker_id ≡ j.worker_id)
            × ((f j).worker_lease_until ≡ j.worker_lease_until))
      → lease_cell job (update_jobs p f db) ≡ some (some worker, some until)
  keeps_columns p f h =
      update_jobs-lease_cell job p f db (some worker) (some until) held (λ j. (h j).0)
        (λ j _ w u _. ((h j).1 ∙ w, (h j).2 ∙ u))

  -- An UPDATE whose guard rules the row out.
  misses_row :
      (p : Job → Bool) (f : Job → Job)
      → ((j : Job) → job_key (f j) ≡ job_key j)
      → ((j : Job)
          → j.id ≡ job
          → j.worker_id ≡ some worker
          → j.worker_lease_until ≡ some until
          → p j ≡ false)
      → lease_cell job (update_jobs p f db) ≡ some (some worker, some until)
  misses_row p f k h =
      update_jobs-lease_cell job p f db (some worker) (some until) held k
        (λ j i w u hit. ground (arith, h j i w u))

  take-keeps_lease :
      (other target until' : ℕ)
      → lease_cell job
          (update_jobs (λ j. (j.id == target) && is_unheld now j) (set_lease other now until') db)
        ≡ some (some worker, some until)
  take-keeps_lease other target until' = misses_row _ _ (λ j. refl) (λ j i w u. ground arith)

  -- A claim is a renewal only for the worker that the row names.
  renew-keeps_lease :
      (other target until' : ℕ) (row : Job)
      → other ≢ worker
      → find job_key target db.jobs ≡ some row
      → holds row.worker_id other ≡ true
      → lease_cell job (update_jobs (λ j. j.id == target) (extend_lease now until') db)
        ≡ some (some worker, some until)
  renew-keeps_lease other target until' row ne here mine = elim (Bool-cases (target == job)) [
    | inl same ↦ absurd (clash ((==_iff target job).0 same))
    | inr apart ↦ misses_row _ _ (λ j. refl) (λ j i w u. ground arith)
  ]
    where
      clash : target ≡ job → ⊥
      clash e = ground arith

  claim-keeps_lease :
      (other target lease grace : ℕ)
      → other ≢ worker
      → lease_cell job (claim_worker now target other lease grace db).0
        ≡ some (some worker, some until)
  unfolding claim_worker get
  claim-keeps_lease other target lease grace ne =
      elim (Option-cases (find job_key target db.jobs)) [
        | inl gone ↦ ground (arith, take-keeps_lease other target (now + lease))
        | inr (row, here) ↦ ground (
          arith,
          take-keeps_lease other target (now + lease),
          renew-keeps_lease other target (now + lease) row,
        )
      ]

  -- A call that another worker makes, or that names no worker, leaves the lease as it is.
  call-keeps_lease :
      (c : JobCall)
      → caller c ≢ some worker
      → lease_cell job (call now c db) ≡ some (some worker, some until)
  unfolding call renew_worker release_worker acknowledge_pause mark_started_if_owned
      mark_finished_if_owned mark_cancelled_if_owned update_status_if_owned
      record_job_error_if_owned mark_cancelled_if_unowned mark_started mark_finished
      set_pause_requested clear_pause_state reconcile_stats touch_heartbeat update_status
      set_requested_command record_job_error
  call-keeps_lease (claims target other lease grace) ne =
      claim-keeps_lease other target lease grace (λ e. ne (ap some e))
  call-keeps_lease (renews target other lease) ne =
      misses_row _ _ (λ j. refl) (λ j i w u. ground arith)
  call-keeps_lease (releases target other) ne = misses_row _ _ (λ j. refl) (λ j i w u. ground arith)
  call-keeps_lease (acknowledges target other) ne =
      misses_row _ _ (λ j. refl) (λ j i w u. ground arith)
  call-keeps_lease (starts target other) ne = keeps_columns _ _ (λ j. (refl, refl, refl))
  call-keeps_lease (finishes target other) ne = keeps_columns _ _ (λ j. (refl, refl, refl))
  call-keeps_lease (cancels target other) ne = keeps_columns _ _ (λ j. (refl, refl, refl))
  call-keeps_lease (sets_status target other s) ne = keeps_columns _ _ (λ j. (refl, refl, refl))
  call-keeps_lease (records_error target other t m) ne = keeps_columns _ _ (λ j. (refl, refl, refl))
  call-keeps_lease (cancels_unowned target) ne = keeps_columns _ _ (λ j. (refl, refl, refl))
  call-keeps_lease (forces_start target) ne = keeps_columns _ _ (λ j. (refl, refl, refl))
  call-keeps_lease (forces_finish target) ne = keeps_columns _ _ (λ j. (refl, refl, refl))
  call-keeps_lease (requests_pause target) ne = keeps_columns _ _ (λ j. (refl, refl, refl))
  call-keeps_lease (clears_pause target) ne = keeps_columns _ _ (λ j. (refl, refl, refl))
  call-keeps_lease (reconciles target) ne = keeps_columns _ _ (λ j. (refl, refl, refl))
  call-keeps_lease (touches target) ne = keeps_columns _ _ (λ j. (refl, refl, refl))
  call-keeps_lease (forces_status target s) ne = keeps_columns _ _ (λ j. (refl, refl, refl))
  call-keeps_lease (requests target c) ne = keeps_columns _ _ (λ j. (refl, refl, refl))
  call-keeps_lease (forces_error target t m) ne = keeps_columns _ _ (λ j. (refl, refl, refl))

abbrev pub run_calls : List (Moment × JobCall) → Db → Db
run_calls [] db = db
run_calls ((now, c) ∷ cs) db = run_calls cs (call now c db)

-- Calls made while the lease runs, none of them by its owner.
abbrev pub AreForeign : Key → Moment → List (Moment × JobCall) → Type 0
AreForeign worker until [] = Unit {0}
AreForeign worker until ((now, c) ∷ cs) =
    (now < until) × (caller c ≢ some worker) × AreForeign worker until cs

run_calls-keeps_lease :
    (job worker until : ℕ) (cs : List (Moment × JobCall)) (db : Db)
    → lease_cell job db ≡ some (some worker, some until)
    → AreForeign worker until cs
    → lease_cell job (run_calls cs db) ≡ some (some worker, some until)
run_calls-keeps_lease job worker until [] db held foreign = held
run_calls-keeps_lease job worker until ((now, c) ∷ cs) db held foreign =
    run_calls-keeps_lease job worker until cs (call now c db)
      (call-keeps_lease job worker until now db held foreign.0 c foreign.1) foreign.2

-- No takeover while a lease runs: if a worker holds a job's lease until some moment, then after any
-- sequence of the repository's writes to `jobs` before that moment (other workers' claims,
-- renewals, releases and guarded writes, and the unguarded writes of anyone), `create` and the
-- forced release left out, the worker still owns the job at every moment before the lease ends.
pub run_calls-is_job_owned_by :
    (job worker until : ℕ) (cs : List (Moment × JobCall)) (db : Db)
    → lease_cell job db ≡ some (some worker, some until)
    → AreForeign worker until cs
    → (now : Moment) → now < until
    → is_job_owned_by now job worker (run_calls cs db) ≡ true
unfolding is_job_owned_by get
run_calls-is_job_owned_by job worker until cs db held foreign now running =
    elim (Option-cases (find job_key job (run_calls cs db).jobs)) [
      | inl gone ↦ ground (arith, run_calls-keeps_lease job worker until cs db held foreign)
      | inr (j, here) ↦ ground (arith, run_calls-keeps_lease job worker until cs db held foreign)
    ]
