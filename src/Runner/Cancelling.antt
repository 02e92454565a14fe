-- ===== src/Runner/Cancelling.antt =====
-- What a cancellation does to the job.
use tools_tele_t_ng.Base.{
  ℕ, suc, ◌≡◌, ◌≢◌, refl, ◌∙◌, Bool, true, false, ◌||◌, some, find, IsUnique, find-update_id,
  write_lem, update_where-IsUnique, ◌==◌, if◌then◌else◌, arith, Bool-cases, inl, inr,
}
use tools_tele_t_ng.Models.Clock.{Moment}
use tools_tele_t_ng.Models.Status.{JobCommand}
use tools_tele_t_ng.Models.Rows.{Key, Job}
use tools_tele_t_ng.Database.{Db, job_key}
use tools_tele_t_ng.JobRepo.Jobs.{get, set_requested_command}
use tools_tele_t_ng.JobRepo.JobLease.{
  is_live, is_unheld, has_live_worker_lease, cancel_row, mark_cancelled_if_unowned,
}
use tools_tele_t_ng.Runner.State.{
  Runner, is_active, publish_job, Kind, job_cancel_requested, job_cancelled,
}
use tools_tele_t_ng.Runner.Actions.{
  Answer, accepted, is_parent, is_over, with_db, cancel_single, cancel,
}

publish_job-db :
    (now : Moment) (kind : Kind) (job_id : Key) (r : Runner)
    → (publish_job now kind job_id r).db ≡ r.db
unfolding publish_job
publish_job-db now kind job_id r = ground arith

-- Somebody may be at work on the job: a task of this runner, or a worker with a running lease.
abbrev pub is_attended_job : Moment → Job → Runner → Bool
is_attended_job now j r = is_active j.id r || is_live now j.worker_id j.worker_lease_until

-- The row of a cancelled job, with the command that is asked for first.
abbrev pub asked : Moment → Job → Job
asked now j = record j { requested_command = JobCommand.cancel; updated_at = now }

abbrev asked_runner : Moment → Key → Runner → Runner
asked_runner now job_id r = with_db r (set_requested_command now job_id JobCommand.cancel r.db)

-- The command is stored.
asked-find :
    (now : Moment) (j : Job) (r : Runner)
    → find job_key j.id r.db.jobs ≡ some j
    → find job_key j.id (asked_runner now j.id r).db.jobs ≡ some (asked now j)
unfolding set_requested_command
asked-find now j r here = find-update_id job_key j.id (asked now) r.db.jobs j (λ x. refl) here

asked-IsUnique :
    (now : Moment) (job_id : Key) (r : Runner)
    → IsUnique job_key r.db.jobs
    → IsUnique job_key (asked_runner now job_id r).db.jobs
unfolding set_requested_command
asked-IsUnique now job_id r unique =
    update_where-IsUnique job_key (λ x. x.id == job_id) (asked now) r.db.jobs (λ x. refl) unique

-- A job that nobody holds is written.
cancelled-find :
    (now : Moment) (j : Job) (db : Db)
    → IsUnique job_key db.jobs
    → find job_key j.id db.jobs ≡ some j
    → is_unheld now j ≡ true
    → let (db', won) = mark_cancelled_if_unowned now j.id db in
      (won ≡ true) × (find job_key j.id db'.jobs ≡ some (cancel_row now j))
unfolding mark_cancelled_if_unowned
cancelled-find now j db unique here free =
    let law =
      write_lem job_key j.id (is_unheld now) (cancel_row now) db.jobs j (λ x. refl) unique here in
    (law.0 ∙ free, law.1 ∙ rw free refl)

unheld :
    (now : Moment) (j : Job)
    → j.worker_id ≢ some 0
    → is_live now j.worker_id j.worker_lease_until ≡ false
    → is_unheld now (asked now j) ≡ true
unheld now j named idle = ground arith

Cancels : Moment → Job → Runner → Answer × Runner → Type 0
Cancels now j r (answer, r') =
    (answer ≡ accepted)
    × (find job_key j.id r'.db.jobs
        ≡ some (if is_attended_job now j r then asked now j else cancel_row now (asked now j)))

cancel_single-Cancels :
    (now : Moment) (j : Job) (r : Runner)
    → IsUnique job_key r.db.jobs
    → find job_key j.id r.db.jobs ≡ some j
    → j.worker_id ≢ some 0
    → Cancels now j r (cancel_single now j.id r)
unfolding Cancels cancel_single has_live_worker_lease get is_active
cancel_single-Cancels now j r unique here named =
    let stored = asked-find now j r here in
    elim (Bool-cases (is_active j.id r)) [
      | inl active ↦
          ground
            (arith, stored, publish_job-db now job_cancel_requested j.id (asked_runner now j.id r))
      | inr idle ↦ elim (Bool-cases (is_live now j.worker_id j.worker_lease_until)) [
        | inl live ↦
            ground (
              arith,
              stored,
              publish_job-db now job_cancel_requested j.id (asked_runner now j.id r),
            )
        | inr free ↦
            let written =
              cancelled-find now (asked now j) (asked_runner now j.id r).db
                (asked-IsUnique now j.id r unique) stored (unheld now j named free) in
            let after_all =
              with_db (asked_runner now j.id r)
                (mark_cancelled_if_unowned now j.id (asked_runner now j.id r).db).0 in
            ground
              (arith, stored, written.0, written.1, publish_job-db now job_cancelled j.id after_all)
      ]
    ]

-- A job that has not ended and is no parent of branches, where identifiers are distinct and the worker
-- stored with it, if any, has a name, is cancelled at once only where nobody is at work on it. Elsewhere
-- the command is stored for the worker that is, and its status, its worker and its lease are left alone.
-- Either way the request is accepted.
pub cancel_lem :
    (depth : ℕ) (now : Moment) (j : Job) (r : Runner)
    → IsUnique job_key r.db.jobs
    → find job_key j.id r.db.jobs ≡ some j
    → is_over j ≡ false
    → is_parent j ≡ false
    → j.worker_id ≢ some 0
    → let (answer, r') = cancel (suc depth) now j.id r in
      (answer ≡ accepted)
      × (find job_key j.id r'.db.jobs
          ≡ some (if is_attended_job now j r then asked now j else cancel_row now (asked now j)))
unfolding cancel get Cancels
cancel_lem depth now j r unique here open_still single named =
    rw (here, cancel, get)
      (rw open_still (rw single (cancel_single-Cancels now j r unique here named)))
