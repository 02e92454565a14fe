-- ===== src/Tests/Pages.antt =====
-- What the routes show and delete, at a parent with two branches.
use tools_tele_t_ng.Base.{
  ℕ, ◌≡◌, refl, ◌≤◌, true, false, none, some, [], ◌∷◌, map, length_of, select_where, if◌then◌else◌,
  arith,
}
use tools_tele_t_ng.Models.Status.{JobStatus}
use tools_tele_t_ng.Models.Rows.{Key, Job, JobMode}
use tools_tele_t_ng.JobRepo.Jobs.{get, list_children}
use tools_tele_t_ng.ResultRepo.Items.{all_items}
use tools_tele_t_ng.Runner.State.{Runner}
use tools_tele_t_ng.Runner.Actions.{targets}
use tools_tele_t_ng.Runner.Parents.{any_of}
use tools_tele_t_ng.Routes.Jobs.{Detail, job_detail, is_busy, doomed, conflict, deleted, delete_job}
use tools_tele_t_ng.Routes.Shown.{AreSums, status_of, by_verdict, job_detail-branches}
use tools_tele_t_ng.Routes.Items.{any_status, Search, is_wanted, Page, size_of, get_items}
use tools_tele_t_ng.Routes.Pages.{first_pages, first_pages-whole}
use tools_tele_t_ng.Routes.Deletion.{has_id, delete_job-deleted}
use tools_tele_t_ng.Tests.Data.{free_job, waiting, tables}

abbrev parent : Job
parent = record free_job { id = 3; job_mode = JobMode.multi_parent }

abbrev failed_branch : Job
failed_branch = record free_job {
  status = JobStatus.failed;
  job_mode = JobMode.multi_branch;
  parent_job_id = some 3;
}

abbrev paused_branch : Job
paused_branch = record failed_branch { id = 8; status = JobStatus.paused }

abbrev runner : Runner
runner = record {
  db = record (tables free_job waiting) { jobs = parent ∷ failed_branch ∷ paused_branch ∷ [] };
  tasks = [];
  next_serial = 0;
  events = [];
}

job_detail-branches_example :
    let children = list_children 3 runner.db in
    (d : Detail) × (job_detail (λ k. k) none 2 10 3 runner ≡ some d)
    × (d.status ≡ by_verdict (map status_of children))
    × AreSums 10 runner.db children d
unfolding get list_children
job_detail-branches_example =
    job_detail-branches (λ k. k) none 10 runner 0 parent refl refl (refl, refl, (refl, refl, tt))

delete_job-deleted_example :
    let (outcome, r') = delete_job 10 3 runner in
    let busy = any_of (is_busy 10 runner) (doomed parent runner.db) in
    (busy ≡ true → (outcome ≡ conflict) × (r' ≡ runner))
    × (busy ≡ false
        → (outcome ≡ deleted)
          × ((k : Key)
              → (get k r'.db
                  ≡ (if has_id k (doomed parent runner.db) then none else get k runner.db))
                × (all_items k r'.db
                    ≡ (if has_id k (targets parent runner.db) then [] else all_items k runner.db))))
unfolding get
delete_job-deleted_example = delete_job-deleted 10 parent runner refl

abbrev no_search : Search
no_search = record { like = λ q text. false; q = none }

first_pages-whole_example :
    let wanted =
      select_where
        (is_wanted (targets parent runner.db) any_status no_search)
        runner.db.check_items in
    (first_pages 3 1 50 any_status no_search runner.db ≡ wanted)
    × ((page : ℕ)
        → (p : Page) × (get_items 3 page 50 any_status no_search runner.db ≡ some p)
          × (p.total ≡ length_of wanted)
          × (length_of p.items ≤ size_of 50))
unfolding get list_children
first_pages-whole_example =
    first_pages-whole 3 parent 50 1 any_status no_search runner.db refl (omega arith)
