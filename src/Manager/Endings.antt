-- ===== src/Manager/Endings.antt =====
-- How `JobManager.run` ends: what the status that it returns is worth, and what it leaves behind.
use tools_tele_t_ng.Base.{
  ◌⊎◌, ℕ, ◌≡◌, ◌≢◌, refl, sym, ◌∙◌, Bool, true, false, not, some, String, find, IsUnique,
  update_where-IsUnique, write_lem, subst, if◌then◌else◌, arith, Bool-cases, inl, inr,
}
use tools_tele_t_ng.Models.Status.{JobStatus}
use tools_tele_t_ng.Models.Rows.{Key, Job}
use tools_tele_t_ng.Database.{Db, job_key, write_jobs}
use tools_tele_t_ng.JobRepo.Stats.{reconcile_stats}
use tools_tele_t_ng.JobRepo.Counters.{reconcile_stats_lem}
use tools_tele_t_ng.JobRepo.JobLease.{
  holds_lease, owned_row, is_job_owned_by, update_status_if_owned, mark_finished_if_owned,
  mark_cancelled_if_owned, cancel_row,
}
use tools_tele_t_ng.JobRepo.Jobs.{get}
use tools_tele_t_ng.ResultRepo.Items.{has_unfinished_items}
use tools_tele_t_ng.RateLimiter.State.{to_iso}
use tools_tele_t_ng.Worker.Core.{Worker}
use tools_tele_t_ng.Worker.Release.{release-Released}
use tools_tele_t_ng.Manager.Runs.{
  Finish, returns, lost_ownership, end_with, conclude, Run, is_paused_job, end_run,
}

-- A guarded write that must succeed: it returns its status exactly if the worker owns the job.
module _ (now job worker : ℕ) (db : Db) (j : Job) (unique : IsUnique job_key db.jobs)
    (here : find job_key job db.jobs ≡ some j) where
  owned_lem : is_job_owned_by now job worker db ≡ holds_lease worker now j
  unfolding is_job_owned_by get
  owned_lem = rw (is_job_owned_by, here) refl

  must_write :
      (status : JobStatus) (f : Job → Job)
      → ((j : Job) → job_key (f j) ≡ job_key j)
      → (f j).status ≡ status
      → let (r, db') = end_with status (write_jobs (owned_row job worker now) f db) in
        ((r ≡ lost_ownership) × (is_job_owned_by now job worker db ≡ false))
        ⊎ ((r ≡ returns status)
            × (is_job_owned_by now job worker db ≡ true)
            × ((j' : Job) × (find job_key job db'.jobs ≡ some j') × (j'.status ≡ status)))
  must_write status f keeps says =
      let law = write_lem job_key job (holds_lease worker now) f db.jobs j keeps unique here in
      elim (Bool-cases (holds_lease worker now j)) [
        | inl held ↦ inr (ground (arith, law), owned_lem ∙ held, (f j, ground (arith, law), says))
        | inr free ↦ inl (ground (arith, law), owned_lem ∙ free)
      ]

reconcile_stats-IsUnique :
    (now job : ℕ) (db : Db)
    → IsUnique job_key db.jobs
    → IsUnique job_key (reconcile_stats now job db).jobs
unfolding reconcile_stats
reconcile_stats-IsUnique now job db u = update_where-IsUnique job_key _ _ db.jobs (λ j. refl) u

-- The counters do not bear on who owns the job.
reconcile_stats-owned :
    (now job worker : ℕ) (db : Db) (j : Job)
    → find job_key job db.jobs ≡ some j
    → is_job_owned_by now job worker (reconcile_stats now job db)
      ≡ is_job_owned_by now job worker db
unfolding is_job_owned_by get
reconcile_stats-owned now job worker db j here =
    ground (arith, reconcile_stats_lem now job db j here)

reconcile_stats-unfinished :
    (now job : ℕ) (db : Db)
    → has_unfinished_items job (reconcile_stats now job db) ≡ has_unfinished_items job db
unfolding reconcile_stats has_unfinished_items
reconcile_stats-unfinished now job db = refl

-- The row of a job says a status.
abbrev pub Says : Key → JobStatus → Db → Type 0
Says job status db = (j : Job) × (find job_key job db.jobs ≡ some j) × (j.status ≡ status)

-- What each of the statuses that end a job is worth, by what it is returned for.
abbrev pub IsTruthful : Key → Bool → Bool → Bool → Finish × Db → Type 0
IsTruthful job cancelled unfinished owned (r, db') =
    (r ≡ returns JobStatus.completed
      → (unfinished ≡ false) × (owned ≡ true) × Says job JobStatus.completed db')
    × (r ≡ returns JobStatus.cancelled
        → (cancelled ≡ true) × (owned ≡ true) × Says job JobStatus.cancelled db')
    × (r ≡ lost_ownership → owned ≡ false)

module _ (now job : ℕ) (w : Worker) (db : Db) (j : Job) (unique : IsUnique job_key db.jobs)
    (here : find job_key job db.jobs ≡ some j) where
  counted : Db
  counted = reconcile_stats now job db

  written :
      (status : JobStatus) (f : Job → Job)
      → ((j : Job) → job_key (f j) ≡ job_key j)
      → ((j : Job) → (f j).status ≡ status)
      → let (r, db') = end_with status (write_jobs (owned_row job w.worker_id now) f counted) in
        ((r ≡ lost_ownership) × (is_job_owned_by now job w.worker_id db ≡ false))
        ⊎ ((r ≡ returns status)
            × (is_job_owned_by now job w.worker_id db ≡ true)
            × Says job status db')
  unfolding counted
  written status f keeps says =
      let row = reconcile_stats_lem now job db j here in
      subst
        (λ owned.
          let (r, db') = end_with status (write_jobs (owned_row job w.worker_id now) f counted) in
          ((r ≡ lost_ownership) × (owned ≡ false))
          ⊎ ((r ≡ returns status) × (owned ≡ true) × Says job status db'))
        (reconcile_stats-owned now job w.worker_id db j here)
        (must_write now job w.worker_id counted row.0 (reconcile_stats-IsUnique now job db unique)
          row.1 status f keeps (says row.0))

  finish : Finish × Db
  finish = end_with JobStatus.completed (mark_finished_if_owned now job w.worker_id counted)

  cancel : Finish × Db
  cancel = end_with JobStatus.cancelled (mark_cancelled_if_owned now job w.worker_id counted)

  -- The database that the two other ends leave.
  limited_db : Db
  limited_db = (update_status_if_owned now job w.worker_id JobStatus.rate_limited counted).0

  paused_db : Db
  paused_db =
      if is_paused_job (get job counted)
      then counted
      else (update_status_if_owned now job w.worker_id JobStatus.paused counted).0

  cancel-IsTruthful :
      (unfinished : Bool)
      → IsTruthful job true unfinished (is_job_owned_by now job w.worker_id db) cancel
  unfolding cancel mark_cancelled_if_owned
  cancel-IsTruthful unfinished =
      elim (written JobStatus.cancelled (cancel_row now) (λ j. refl) (λ j. refl)) [
        | inl (lost, free) ↦ (λ e. absurd (ground arith), λ e. absurd (ground arith), λ e. free)
        | inr (done, held, says) ↦
            (λ e. absurd (ground arith), λ e. (refl, held, says), λ e. absurd (ground arith))
      ]

  finish-IsTruthful :
      (cancelled : Bool)
      → IsTruthful job cancelled false (is_job_owned_by now job w.worker_id db) finish
  unfolding finish mark_finished_if_owned
  finish-IsTruthful cancelled =
      elim (written JobStatus.completed
        (λ j. record j { status = JobStatus.completed; finished_at = some now; updated_at = now })
        (λ j. refl) (λ j. refl)) [
          | inl (lost, free) ↦ (λ e. absurd (ground arith), λ e. absurd (ground arith), λ e. free)
          | inr (done, held, says) ↦
              (λ e. (refl, held, says), λ e. absurd (ground arith), λ e. absurd (ground arith))
        ]

  other-IsTruthful :
      (cancelled unfinished owned : Bool) (status : JobStatus) (db' : Db)
      → status ≢ JobStatus.completed
      → status ≢ JobStatus.cancelled
      → IsTruthful job cancelled unfinished owned (returns status, db')
  other-IsTruthful cancelled unfinished owned status db' nc nx =
      (λ e. absurd (ground arith), λ e. absurd (ground arith), λ e. absurd (ground arith))

  choose :
      (cancelled limited unfinished owned : Bool) (fin can lim pau : Finish × Db)
      → IsTruthful job true unfinished owned can
      → IsTruthful job cancelled false owned fin
      → IsTruthful job cancelled unfinished owned lim
      → IsTruthful job cancelled unfinished owned pau
      → IsTruthful job cancelled unfinished owned
          (if cancelled then can else if limited then lim else if not unfinished then fin else pau)
  choose true limited unfinished owned fin can lim pau c f l p = c
  choose false true unfinished owned fin can lim pau c f l p = l
  choose false false false owned fin can lim pau c f l p = f
  choose false false true owned fin can lim pau c f l p = p

  -- A status that a run returns is worth its name: COMPLETED is returned only if every item of the job
  -- is settled, CANCELLED only if a cancel command was taken, and in both cases the worker owned the
  -- job at that moment and the job's row says so. A `LostOwnershipError` comes out only if the worker
  -- did not own the job.
  pub conclude-IsTruthful :
      IsTruthful job w.cancelled_by_command
        (has_unfinished_items job db)
        (is_job_owned_by now job w.worker_id db)
        (conclude now job w db)
  unfolding conclude counted finish cancel limited_db paused_db
  conclude-IsTruthful =
      let unfinished = has_unfinished_items job db in
      let owned = is_job_owned_by now job w.worker_id db in
      subst
        (λ u. IsTruthful job w.cancelled_by_command unfinished owned (
          if w.cancelled_by_command
          then cancel
          else if w.paused_on_rate_limit
          then (returns JobStatus.rate_limited, limited_db)
          else if not u
          then finish
          else (returns JobStatus.paused, paused_db)))
        (sym (reconcile_stats-unfinished now job db))
        (choose w.cancelled_by_command w.paused_on_rate_limit unfinished owned finish cancel
          (returns JobStatus.rate_limited, limited_db) (returns JobStatus.paused, paused_db)
          (cancel-IsTruthful unfinished) (finish-IsTruthful w.cancelled_by_command)
          (other-IsTruthful w.cancelled_by_command unfinished owned JobStatus.rate_limited
            limited_db (λ e. ground arith) (λ e. ground arith))
          (other-IsTruthful w.cancelled_by_command unfinished owned JobStatus.paused paused_db
            (λ e. ground arith) (λ e. ground arith)))

  -- A run whose worker has given its lease away ends in an exception if there is nothing left to do.
  pub conclude-unowned :
      w.cancelled_by_command ≡ false
      → w.paused_on_rate_limit ≡ false
      → has_unfinished_items job db ≡ false
      → is_job_owned_by now job w.worker_id db ≡ false
      → (conclude now job w db).0 ≡ lost_ownership
  unfolding conclude counted mark_finished_if_owned
  conclude-unowned uncancelled unlimited settled free =
      let ends =
        written JobStatus.completed
          (λ j. record j { status = JobStatus.completed; finished_at = some now; updated_at = now })
          (λ j. refl) (λ j. refl) in
      rw (conclude, uncancelled, unlimited, reconcile_stats-unfinished now job db, settled)
        (elim ends [ inl (lost, _) ↦ lost | inr (_, held, _) ↦ absurd (ground arith) ])

  -- One whose worker holds its lease is COMPLETED then.
  pub conclude-owned :
      w.cancelled_by_command ≡ false
      → w.paused_on_rate_limit ≡ false
      → has_unfinished_items job db ≡ false
      → is_job_owned_by now job w.worker_id db ≡ true
      → (conclude now job w db).0 ≡ returns JobStatus.completed
  unfolding conclude counted mark_finished_if_owned
  conclude-owned uncancelled unlimited settled held =
      let ends =
        written JobStatus.completed
          (λ j. record j { status = JobStatus.completed; finished_at = some now; updated_at = now })
          (λ j. refl) (λ j. refl) in
      rw (conclude, uncancelled, unlimited, reconcile_stats-unfinished now job db, settled)
        (elim ends [ inl (_, free) ↦ absurd (ground arith) | inr (done, _, _) ↦ done ])

-- However a run ends, by a status or by an exception, the worker owns its job no longer.
end_run-unowned :
    (ms later job : ℕ) (trace : String) (r : Run)
    → r.machine.world.worker.job_id ≡ some job
    → is_job_owned_by later job r.machine.world.worker.worker_id (end_run ms job trace r).1 ≡ false
unfolding end_run
end_run-unowned ms later job trace r e =
    (release-Released (to_iso ms) later false false r.machine.world.worker _ job e).0 refl
