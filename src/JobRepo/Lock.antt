-- ===== src/JobRepo/Lock.antt =====
-- The lease of a job as a lock with a time limit: what the repository's writes to `jobs` come to when
-- all is forgotten but who holds the job and until when.
use tools_tele_t_ng.Base.{
  subst, ap, sym, ◌∙◌, ==_iff, ℕ, ◌+◌, ◌≡◌, refl, Bool, false, not, ◌&&◌, ◌||◌, Option, none, some,
  List, [], ◌∷◌, find, updated, find-key, find-update_where, holds, after, due, is_null, ◌==◌,
  if◌then◌else◌, arith, inl, inr, Option-cases, Bool-cases,
}
use tools_tele_t_ng.Models.Clock.{Moment}
use tools_tele_t_ng.Models.Rows.{Key, Job}
use tools_tele_t_ng.Database.{Db, job_key, update_jobs}
use tools_tele_t_ng.JobRepo.Jobs.{
  get, update_status, set_requested_command, touch_heartbeat, record_job_error, mark_started,
  mark_finished,
}
use tools_tele_t_ng.JobRepo.JobLease.{
  owned_row, drop_lease, refuses, is_unheld, set_lease, extend_lease, claim_worker, renew_worker,
  release_worker, update_status_if_owned, record_job_error_if_owned, mark_started_if_owned,
  mark_finished_if_owned, mark_cancelled_if_owned, mark_cancelled_if_unowned,
}
use tools_tele_t_ng.JobRepo.Control.{set_pause_requested, acknowledge_pause, clear_pause_state}
use tools_tele_t_ng.JobRepo.Stats.{reconcile_stats}
use tools_tele_t_ng.JobRepo.Exclusion.{
  JobCall, claims, renews, releases, acknowledges, starts, finishes, cancels, sets_status,
  records_error, cancels_unowned, forces_start, forces_finish, requests_pause, clears_pause,
  reconciles, touches, forces_status, requests, forces_error, call, run_calls, lease_cell,
}

-- The holder, and the moment until which it holds.
abbrev pub Lock : Type 0
Lock = Option Key × Option Moment

pub data LockCall : Type 0 where
  takes : Key → ℕ → ℕ → LockCall
  extends : Key → ℕ → LockCall
  frees steps_down : Key → LockCall
  nothing : LockCall

-- Nobody holds the lock, as a lock without holder or end, or with an end that is past, is free.
abbrev pub is_open : Moment → Lock → Bool
is_open now (holder, until) = is_null holder || (is_null until || due until now)

-- The lock itself. To take it, the worker holds it already, or it is open and the grace for the last
-- holder is over; to extend it, the worker holds it and its time is not over; only the holder frees it,
-- and the holder steps down, which also is done with no holder.
abbrev pub lock_step : Moment → LockCall → Lock → Lock
lock_step now (takes worker lease grace) (holder, until) =
    if holds holder worker
    then (some worker, some (now + lease))
    else if is_open now (holder, until) && not (refuses worker now grace holder until)
    then (some worker, some (now + lease))
    else (holder, until)
lock_step now (extends worker lease) (holder, until) =
    if holds holder worker && after until now then (holder, some (now + lease)) else (holder, until)
lock_step now (frees worker) (holder, until) =
    if holds holder worker then (none, none) else (holder, until)
lock_step now (steps_down worker) (holder, until) =
    if is_null holder || holds holder worker then (none, none) else (holder, until)
lock_step now nothing lock = lock

-- A call about another job is nothing to the lock of this one.
abbrev pub about : Key → Key → LockCall → LockCall
about job target c = if target == job then c else nothing

abbrev pub lock_call : Key → JobCall → LockCall
lock_call job (claims target worker lease grace) = about job target (takes worker lease grace)
lock_call job (renews target worker lease) = about job target (extends worker lease)
lock_call job (releases target worker) = about job target (frees worker)
lock_call job (acknowledges target worker) = about job target (steps_down worker)
lock_call job _ = nothing

abbrev pub run_lock : Key → List (Moment × JobCall) → Lock → Lock
run_lock job [] lock = lock
run_lock job ((now, c) ∷ cs) lock = run_lock job cs (lock_step now (lock_call job c) lock)

module _ (job now : ℕ) (db : Db) (j : Job) (here : find job_key job db.jobs ≡ some j) where
  row_lock : Lock
  row_lock = (j.worker_id, j.worker_lease_until)

  -- The lease behind an UPDATE is that of the row, rewritten or not.
  seen :
      (p : Job → Bool) (f : Job → Job)
      → ((j : Job) → job_key (f j) ≡ job_key j)
      → lease_cell job (update_jobs p f db)
        ≡ some ((updated p f j).worker_id, (updated p f j).worker_lease_until)
  seen p f k = ground (arith, find-update_where job_key job p f db.jobs k)

  by_guard :
      {l : Lock} (p : Job → Bool) (f : Job → Job)
      → ((j : Job) → job_key (f j) ≡ job_key j)
      → ((updated p f j).worker_id, (updated p f j).worker_lease_until) ≡ l
      → lease_cell job (update_jobs p f db) ≡ some l
  by_guard p f k e = seen p f k ∙ ap some e

  id_kept : j.id ≡ job
  id_kept = find-key job_key job db.jobs j here

  keeps :
      (p : Job → Bool) (f : Job → Job)
      → ((j : Job)
          → (job_key (f j) ≡ job_key j)
            × ((f j).worker_id ≡ j.worker_id)
            × ((f j).worker_lease_until ≡ j.worker_lease_until))
      → lease_cell job (update_jobs p f db) ≡ some row_lock
  unfolding row_lock
  keeps p f h = ground (arith, seen p f (λ j. (h j).0), h j)

  own-refines :
      (worker lease grace : ℕ)
      → lease_cell job (claim_worker now job worker lease grace db).0
        ≡ some (lock_step now (takes worker lease grace) row_lock)
  unfolding claim_worker get row_lock
  own-refines worker lease grace =
      let taken =
        seen (λ j. (j.id == job) && is_unheld now j) (set_lease worker now (now + lease))
          (λ j. refl) in
      let renewed = seen (λ j. j.id == job) (extend_lease now (now + lease)) (λ j. refl) in
      ground (arith, here, taken, renewed, id_kept)

  other-refines :
      (target worker lease grace : ℕ)
      → (target == job) ≡ false
      → lease_cell job (claim_worker now target worker lease grace db).0 ≡ some row_lock
  unfolding claim_worker get row_lock
  other-refines target worker lease grace apart =
      let taken =
        seen (λ j. (j.id == target) && is_unheld now j) (set_lease worker now (now + lease))
          (λ j. refl) in
      let renewed = seen (λ j. j.id == target) (extend_lease now (now + lease)) (λ j. refl) in
      elim (Option-cases (find job_key target db.jobs)) [
        | inl gone ↦ ground (arith, here, gone, apart, taken, id_kept)
        | inr (row, there) ↦ ground (arith, here, there, apart, taken, renewed, id_kept)
      ]

  claim-refines :
      (target worker lease grace : ℕ)
      → lease_cell job (claim_worker now target worker lease grace db).0
        ≡ some (lock_step now (about job target (takes worker lease grace)) row_lock)
  claim-refines target worker lease grace = elim (Bool-cases (target == job)) [
    | inl same ↦
        rw (about, same)
          (subst
            (λ t.
              lease_cell job (claim_worker now t worker lease grace db).0
              ≡ some (lock_step now (takes worker lease grace) row_lock))
            (sym ((==_iff target job).0 same)) (own-refines worker lease grace))
    | inr apart ↦ rw (about, apart) (other-refines target worker lease grace apart)
  ]

  call-refines :
      (c : JobCall)
      → lease_cell job (call now c db) ≡ some (lock_step now (lock_call job c) row_lock)
  unfolding call row_lock renew_worker release_worker acknowledge_pause mark_started_if_owned
      mark_finished_if_owned mark_cancelled_if_owned update_status_if_owned
      record_job_error_if_owned mark_cancelled_if_unowned mark_started mark_finished
      set_pause_requested clear_pause_state reconcile_stats touch_heartbeat update_status
      set_requested_command record_job_error
  call-refines (claims target worker lease grace) = claim-refines target worker lease grace
  call-refines (renews target worker lease) =
      by_guard (owned_row target worker now) (extend_lease now (now + lease)) (λ j. refl)
        (ground (arith, id_kept))
  call-refines (releases target worker) =
      by_guard (λ j. (j.id == target) && holds j.worker_id worker) (drop_lease now) (λ j. refl)
        (ground (arith, id_kept))
  call-refines (acknowledges target worker) = by_guard _ _ (λ j. refl) (ground (arith, id_kept))
  call-refines (starts target other) = keeps _ _ (λ j. (refl, refl, refl))
  call-refines (finishes target other) = keeps _ _ (λ j. (refl, refl, refl))
  call-refines (cancels target other) = keeps _ _ (λ j. (refl, refl, refl))
  call-refines (sets_status target other s) = keeps _ _ (λ j. (refl, refl, refl))
  call-refines (records_error target other t m) = keeps _ _ (λ j. (refl, refl, refl))
  call-refines (cancels_unowned target) = keeps _ _ (λ j. (refl, refl, refl))
  call-refines (forces_start target) = keeps _ _ (λ j. (refl, refl, refl))
  call-refines (forces_finish target) = keeps _ _ (λ j. (refl, refl, refl))
  call-refines (requests_pause target) = keeps _ _ (λ j. (refl, refl, refl))
  call-refines (clears_pause target) = keeps _ _ (λ j. (refl, refl, refl))
  call-refines (reconciles target) = keeps _ _ (λ j. (refl, refl, refl))
  call-refines (touches target) = keeps _ _ (λ j. (refl, refl, refl))
  call-refines (forces_status target s) = keeps _ _ (λ j. (refl, refl, refl))
  call-refines (requests target c) = keeps _ _ (λ j. (refl, refl, refl))
  call-refines (forces_error target t m) = keeps _ _ (λ j. (refl, refl, refl))

lease_cell-find :
    (job : Key) (db : Db) (holder until : Option ℕ)
    → lease_cell job db ≡ some (holder, until)
    → (j : Job) × (find job_key job db.jobs ≡ some j)
      × (j.worker_id ≡ holder)
      × (j.worker_lease_until ≡ until)
lease_cell-find job db holder until e = elim (Option-cases (find job_key job db.jobs)) [
  | inl gone ↦ absurd (ground (arith, gone))
  | inr (j, here) ↦ (j, here, ground (arith, here), ground (arith, here))
]

step-refines :
    (job now : ℕ) (c : JobCall) (db : Db) (lock : Lock)
    → lease_cell job db ≡ some lock
    → lease_cell job (call now c db) ≡ some (lock_step now (lock_call job c) lock)
unfolding row_lock
step-refines job now c db (holder, until) e =
    let (j, here, h, u) = lease_cell-find job db holder until e in
    subst (λ lock. lease_cell job (call now c db) ≡ some (lock_step now (lock_call job c) lock))
      (λ k. (h k, u k)) (call-refines job now db j here c)

-- The lease of a job is a lock with a time limit: over any sequence of the repository's writes to
-- `jobs`, `create` and the forced release left out, who holds the job and until when is exactly what
-- the lock makes of the claims, renewals, releases and pauses acknowledged for this job, and no other
-- call, nor any call for another job, has a part in it.
pub run_calls-refines :
    (job : Key) (cs : List (Moment × JobCall)) (db : Db) (lock : Lock)
    → lease_cell job db ≡ some lock
    → lease_cell job (run_calls cs db) ≡ some (run_lock job cs lock)
run_calls-refines job [] db lock e = e
run_calls-refines job ((now, c) ∷ cs) db lock e =
    run_calls-refines job cs (call now c db) (lock_step now (lock_call job c) lock)
      (step-refines job now c db lock e)
