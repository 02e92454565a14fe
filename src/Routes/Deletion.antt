-- ===== src/Routes/Deletion.antt =====
-- What a deletion takes away, and what it leaves.
use tools_tele_t_ng.Base.{
  ◌≡◌, refl, ap, ◌∙◌, Bool, true, false, not, ◌||◌, none, some, List, [], ◌∷◌, find, find-without,
  select_where, without, ◌==◌, if◌then◌else◌, arith,
}
use tools_tele_t_ng.Models.Clock.{Moment}
use tools_tele_t_ng.Models.Rows.{Key, Job, CheckItem}
use tools_tele_t_ng.Database.{Db, job_key}
use tools_tele_t_ng.JobRepo.Jobs.{get}
use tools_tele_t_ng.ResultRepo.Items.{all_items}
use tools_tele_t_ng.Runner.State.{Runner}
use tools_tele_t_ng.Runner.Actions.{targets}
use tools_tele_t_ng.Runner.Parents.{any_of}
use tools_tele_t_ng.Routes.Jobs.{
  delete_items, delete_jobs, is_busy, doomed, conflict, deleted, delete_job,
}

abbrev pub has_id : Key → List Job → Bool
has_id k [] = false
has_id k (j ∷ rest) = (j.id == k) || has_id k rest

delete_items-jobs : (js : List Job) (db : Db) → (delete_items js db).jobs ≡ db.jobs
unfolding delete_items
delete_items-jobs [] db = refl
delete_items-jobs (j ∷ rest) db = delete_items-jobs rest _

delete_jobs-items : (js : List Job) (db : Db) → (delete_jobs js db).check_items ≡ db.check_items
unfolding delete_jobs
delete_jobs-items [] db = refl
delete_jobs-items (j ∷ rest) db = delete_jobs-items rest _

-- The items of a job, when those of another job, or its own, are deleted.
select_where-twice :
    (k other : Key) (items : List CheckItem)
    → select_where (λ i. i.job_id == k) (select_where (λ i. not (i.job_id == other)) items)
      ≡ (if other == k then [] else select_where (λ i. i.job_id == k) items)
select_where-twice k other [] = ground arith
select_where-twice k other (i ∷ rest) = ground (arith, select_where-twice k other rest)

delete_items-items :
    (k : Key) (js : List Job) (db : Db)
    → all_items k (delete_items js db) ≡ (if has_id k js then [] else all_items k db)
unfolding delete_items all_items
delete_items-items k [] db = refl
delete_items-items k (j ∷ rest) db = ground (
  arith,
  select_where-twice k j.id db.check_items,
  delete_items-items k rest
      (record db { check_items = select_where (λ i. not (i.job_id == j.id)) db.check_items }),
)

delete_jobs-find :
    (k : Key) (js : List Job) (db : Db)
    → find job_key k (delete_jobs js db).jobs
      ≡ (if has_id k js then none else find job_key k db.jobs)
unfolding delete_jobs
delete_jobs-find k [] db = refl
delete_jobs-find k (j ∷ rest) db = ground (
  arith,
  find-without job_key k j.id db.jobs,
  delete_jobs-find k rest (record db { jobs = without job_key j.id db.jobs }),
)

-- A deletion is refused, and changes nothing, exactly if the job, or a branch of it, has a task here
-- or a worker with a live lease. Otherwise the job is gone with its branches and their items, and
-- every other job is still there, as is every item of another job.
pub delete_job-deleted :
    (now : Moment) (j : Job) (r : Runner)
    → get j.id r.db ≡ some j
    → let (outcome, r') = delete_job now j.id r in
      let busy = any_of (is_busy now r) (doomed j r.db) in
      (busy ≡ true → (outcome ≡ conflict) × (r' ≡ r))
      × (busy ≡ false
          → (outcome ≡ deleted)
            × ((k : Key)
                → (get k r'.db ≡ (if has_id k (doomed j r.db) then none else get k r.db))
                  × (all_items k r'.db
                      ≡ (if has_id k (targets j r.db) then [] else all_items k r.db))))
unfolding delete_job get all_items
delete_job-deleted now j r here = (
  λ busy. rw (here, delete_job, get) (rw busy (refl, refl)),
  λ free.
      let kept = delete_items (targets j r.db) r.db in
      rw (here, delete_job, get)
        (rw free (
          refl,
          λ k. (
            delete_jobs-find k (doomed j r.db) kept
                ∙ ap (λ jobs. if has_id k (doomed j r.db) then none else find job_key k jobs)
                    (delete_items-jobs (targets j r.db) r.db),
            ap (select_where (λ i. i.job_id == k)) (delete_jobs-items (doomed j r.db) kept)
                ∙ delete_items-items k (targets j r.db) r.db,
          ),
        )),
)
