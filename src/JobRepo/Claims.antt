-- ===== src/JobRepo/Claims.antt =====
-- What a claim and a renewal of a job's lease come to, on every branch.
use tools_tele_t_ng.Base.{
  subst, fun_ext, ℕ, ◌+◌, ◌≡◌, refl, ap, ◌∙◌, sym, Bool, true, false, not, ◌&&◌, ◌||◌, some, find,
  IsUnique, rowcount-hit, update_where_missed, find-update_self, hit, holds, ◌==◌, if◌then◌else◌,
  arith,
}
use tools_tele_t_ng.Models.Clock.{Moment, iso_from_offset}
use tools_tele_t_ng.Models.Rows.{Key, Job}
use tools_tele_t_ng.Database.{Db, job_key, write_jobs}
use tools_tele_t_ng.JobRepo.Jobs.{get}
use tools_tele_t_ng.JobRepo.JobLease.{is_unheld, refuses, set_lease, extend_lease, claim_worker}
use tools_tele_t_ng.JobRepo.Exclusion.{lease_cell}

-- A guarded UPDATE of a job's row: whether it was written, and the database otherwise.
module _ (job : Key) (q : Job → Bool) (f : Job → Job) (db : Db) (unique : IsUnique job_key db.jobs)
    (key_kept : (j : Job) → job_key (f j) ≡ job_key j) where
  pub write_jobs-written :
      (write_jobs (λ j. (j.id == job) && q j) f db).1 ≡ hit q (find job_key job db.jobs)
  write_jobs-written = rowcount-hit job_key job q db.jobs unique

  pub write_jobs_refused :
      (write_jobs (λ j. (j.id == job) && q j) f db).1 ≡ false
      → (write_jobs (λ j. (j.id == job) && q j) f db).0 ≡ db
  write_jobs_refused e =
      ap (λ js. record db { jobs = js })
        (update_where_missed job_key job q f db.jobs unique (sym write_jobs-written ∙ e))

  pub write_jobs_done :
      (j : Job)
      → find job_key job db.jobs ≡ some j
      → (write_jobs (λ j. (j.id == job) && q j) f db).1 ≡ true
      → (q j ≡ true)
        × (find job_key job (write_jobs (λ j. (j.id == job) && q j) f db).0.jobs ≡ some (f j))
  write_jobs_done j here e =
      ground (arith, write_jobs-written, find-update_self job_key job q f db.jobs j key_kept here)

-- Whether a claim wins: the row names the worker already, or nobody holds it, the grace included.
abbrev pub wins : Key → Moment → ℕ → Job → Bool
wins worker now grace j =
    holds j.worker_id worker
    || (is_unheld now j && not (refuses worker now grace j.worker_id j.worker_lease_until))

and_true : (b : Bool) → b ≡ (b && true)
and_true true = refl
and_true false = refl

-- `WHERE id = ?` alone is a guard that adds nothing.
by_id :
    (job : Key) (f : Job → Job) (db : Db)
    → write_jobs (λ j. j.id == job) f db ≡ write_jobs (λ j. (j.id == job) && true) f db
by_id job f db = ap (λ p. write_jobs p f db) (fun_ext (λ j. and_true (j.id == job)))

-- What a write of a lease promises: its result is as expected, and then the job is leased to the
-- worker until the moment given; otherwise nothing has changed.
abbrev pub Leases : Key → Key → Moment → Db → Bool → Db × Bool → Type 0
Leases job worker until db expected (db', won) =
    (won ≡ expected)
    × (won ≡ true → lease_cell job db' ≡ some (some worker, some until))
    × (won ≡ false → db' ≡ db)

module _ (now job worker lease grace : ℕ) (db : Db) (j : Job) (unique : IsUnique job_key db.jobs)
    (here : find job_key job db.jobs ≡ some j) where
  abbrev Promise : Bool → Db × Bool → Type 0
  Promise = Leases job worker (now + lease) db

  taken : Db × Bool
  taken =
      write_jobs (λ j. (j.id == job) && is_unheld now j)
        (set_lease worker now (iso_from_offset now lease)) db

  renewed : Db × Bool
  renewed = write_jobs (λ j. j.id == job) (extend_lease now (iso_from_offset now lease)) db

  taken-Leases : Promise (is_unheld now j) taken
  unfolding taken
  taken-Leases =
      let q = is_unheld now in
      let f = set_lease worker now (iso_from_offset now lease) in
      (
        write_jobs-written job q f db unique (λ j. refl) ∙ ap (hit q) here,
        λ e. ground (arith, write_jobs_done job q f db unique (λ j. refl) j here e),
        write_jobs_refused job q f db unique (λ j. refl),
      )

  renewed-Leases : holds j.worker_id worker ≡ true → Promise true renewed
  unfolding renewed
  renewed-Leases mine =
      let q = λ (j : Job). true in
      let f = extend_lease now (iso_from_offset now lease) in
      subst (Promise true) (sym (by_id job f db)) (
        write_jobs-written job q f db unique (λ j. refl) ∙ ap (hit q) here,
        λ e. ground (arith, write_jobs_done job q f db unique (λ j. refl) j here e),
        write_jobs_refused job q f db unique (λ j. refl),
      )

  -- The ladder of the two tests, when a row that names the worker is never refused.
  choose :
      (refused mine free : Bool)
      → (mine ≡ true → refused ≡ false)
      → (mine ≡ true → Promise true renewed)
      → Promise free taken
      → Promise
          (mine || (free && not refused))
          (if refused then (db, false) else if mine then renewed else taken)
  choose true true free ex r t = absurd (ground (arith, ex refl))
  choose true false true ex r t = (refl, λ e. cc, λ e. refl)
  choose true false false ex r t = (refl, λ e. cc, λ e. refl)
  choose false true free ex r t = r refl
  choose false false free ex r t = subst (λ b. Promise b taken) (and_true free) t

  -- A claim wins exactly if the job's row names the worker already, or names nobody with a lease
  -- that still runs, the takeover grace included. A claim that wins leaves the worker with a lease
  -- of the asked length, and one that loses leaves the database as it was.
  pub claim_worker-Leases :
      Leases job worker
        (now + lease)
        db
        (wins worker now grace j)
        (claim_worker now job worker lease grace db)
  unfolding claim_worker get taken renewed
  claim_worker-Leases =
      rw (here, claim_worker, get)
        (choose (refuses worker now grace j.worker_id j.worker_lease_until)
          (holds j.worker_id worker) (is_unheld now j) (λ mine. ground arith) renewed-Leases
          taken-Leases)
