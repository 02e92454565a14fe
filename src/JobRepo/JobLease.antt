-- ===== src/JobRepo/JobLease.antt =====
-- JobRepository: the lease of a job, and the writes that are guarded by a live lease.
use tools_tele_t_ng.Base.{
  ℕ, ◌+◌, Bool, false, not, ◌&&◌, ◌||◌, Option, none, some, List, map, String, select_where, holds,
  after, due, is_null, ltb, ◌==◌, if◌then◌else◌,
}
use tools_tele_t_ng.Models.Clock.{Moment, iso_from_offset}
use tools_tele_t_ng.Models.Status.{JobStatus, JobCommand, is_active}
use tools_tele_t_ng.Models.Rows.{Key, Job}
use tools_tele_t_ng.Database.{Db, update_jobs, write_jobs}
use tools_tele_t_ng.JobRepo.Jobs.{get}

-- `id = ? AND worker_id = ? AND worker_lease_until > ?`
abbrev pub holds_lease : Key → Moment → Job → Bool
holds_lease worker now j = holds j.worker_id worker && after j.worker_lease_until now

abbrev pub owned_row : Key → Key → Moment → Job → Bool
owned_row job_id worker now j = (j.id == job_id) && holds_lease worker now j

-- `worker_id IS NULL OR worker_lease_until IS NULL OR worker_lease_until <= ?`
abbrev pub is_unheld : Moment → Job → Bool
is_unheld now j =
    is_null j.worker_id || (is_null j.worker_lease_until || due j.worker_lease_until now)

abbrev pub set_lease : Key → Moment → Moment → Job → Job
set_lease worker now lease_until j = record j {
  worker_id = some worker;
  worker_heartbeat_at = some now;
  worker_lease_until = some lease_until;
  updated_at = now;
}

abbrev pub extend_lease : Moment → Moment → Job → Job
extend_lease now lease_until j = record j {
  worker_heartbeat_at = some now;
  worker_lease_until = some lease_until;
  updated_at = now;
}

abbrev pub drop_lease : Moment → Job → Job
drop_lease now j = record j {
  worker_id = none;
  worker_heartbeat_at = none;
  worker_lease_until = none;
  updated_at = now;
}

-- The early return of the two claims: another worker's lease that has not run out, the takeover
-- grace included. A lease of the worker itself, and a missing one, never refuses the claim.
abbrev pub refuses : Key → Moment → ℕ → Option Key → Option Moment → Bool
refuses worker now grace none until = false
refuses worker now grace (some current) none = false
refuses worker now grace (some current) (some until) =
    not (current == 0) && not (current == worker) && ltb now (until + grace)

-- The SELECT and the UPDATE behind it are two statements, and here one step: no other process writes
-- between them.
unfoldable pub claim_worker : Moment → Key → Key → ℕ → ℕ → Db → Db × Bool
unfolding get
claim_worker now job_id worker lease_seconds grace db =
    let lease_until = iso_from_offset now lease_seconds in
    let take =
      write_jobs (λ j. (j.id == job_id) && is_unheld now j) (set_lease worker now lease_until) db in
    let renew = write_jobs (λ j. j.id == job_id) (extend_lease now lease_until) db in
    elim (get job_id db) [
      | none ↦ take
      | some row ↦
          if refuses worker now grace row.worker_id row.worker_lease_until
          then (db, false)
          else if holds row.worker_id worker
          then renew
          else take
    ]

unfoldable pub renew_worker : Moment → Key → Key → ℕ → Db → Db × Bool
renew_worker now job_id worker lease_seconds =
    write_jobs (owned_row job_id worker now) (extend_lease now (iso_from_offset now lease_seconds))

unfoldable pub is_job_owned_by : Moment → Key → Key → Db → Bool
unfolding get
is_job_owned_by now job_id worker db = elim (get job_id db) [
  | none ↦ false
  | some row ↦ holds_lease worker now row
]

unfoldable pub release_worker : Moment → Key → Key → Db → Db
release_worker now job_id worker =
    update_jobs (λ j. (j.id == job_id) && holds j.worker_id worker) (drop_lease now)

unfoldable pub clear_worker_ownership : Moment → Key → Db → Db
clear_worker_ownership now job_id = update_jobs (λ j. j.id == job_id) (drop_lease now)

-- A worker id that is not null and not empty, with a lease still running.
abbrev pub is_live : Moment → Option Key → Option Moment → Bool
is_live now none until = false
is_live now (some worker) until = not (worker == 0) && after until now

unfoldable pub has_live_worker_lease : Moment → Key → Db → Bool
unfolding get
has_live_worker_lease now job_id db = elim (get job_id db) [
  | none ↦ false
  | some row ↦ is_live now row.worker_id row.worker_lease_until
]

unfoldable pub list_running_without_worker : Moment → Db → List Key
list_running_without_worker now db =
    map (λ j. j.id) (select_where (λ j. is_active j.status && is_unheld now j) db.jobs)

unfoldable pub update_status_if_owned : Moment → Key → Key → JobStatus → Db → Db × Bool
update_status_if_owned now job_id worker status =
    write_jobs (owned_row job_id worker now) (λ j. record j { status = status; updated_at = now })

unfoldable pub record_job_error_if_owned :
    Moment → Key → Key → String → Option String → Db → Db × Bool
record_job_error_if_owned now job_id worker error_type message =
    write_jobs (owned_row job_id worker now) (λ j. record j {
      last_error_type = some error_type;
      last_error_message = message;
      updated_at = now;
    })

unfoldable pub mark_started_if_owned : Moment → Key → Key → Db → Db × Bool
mark_started_if_owned now job_id worker = write_jobs (owned_row job_id worker now) (λ j. record j {
  status = JobStatus.running;
  requested_command = JobCommand.none;
  started_at = some now;
  updated_at = now;
})

unfoldable pub mark_finished_if_owned : Moment → Key → Key → Db → Db × Bool
mark_finished_if_owned now job_id worker =
    write_jobs (owned_row job_id worker now)
      (λ j. record j { status = JobStatus.completed; finished_at = some now; updated_at = now })

abbrev pub cancel_row : Moment → Job → Job
cancel_row now j = record j {
  status = JobStatus.cancelled;
  requested_command = JobCommand.none;
  pause_requested_at = none;
  paused_at = none;
  finished_at = some now;
  updated_at = now;
}

unfoldable pub mark_cancelled_if_owned : Moment → Key → Key → Db → Db × Bool
mark_cancelled_if_owned now job_id worker =
    write_jobs (owned_row job_id worker now) (cancel_row now)

unfoldable pub mark_cancelled_if_unowned : Moment → Key → Db → Db × Bool
mark_cancelled_if_unowned now job_id =
    write_jobs (λ j. (j.id == job_id) && is_unheld now j) (cancel_row now)
