-- ===== src/Routes/Shown.antt =====
-- What is shown of a parent, against what the runner makes of its branches.
use tools_tele_t_ng.Base.{
  ℕ, suc, ◌+◌, ◌≡◌, refl, ap, ap₂, ◌∙◌, true, false, Option, some, List, [], ◌∷◌, if◌then◌else◌,
  map, arith,
}
use tools_tele_t_ng.Models.Clock.{Moment}
use tools_tele_t_ng.Models.Status.{CheckStatus, JobStatus}
use tools_tele_t_ng.Models.Rows.{Key, Job}
use tools_tele_t_ng.Database.{Db}
use tools_tele_t_ng.JobRepo.Jobs.{get, list_children}
use tools_tele_t_ng.ResultRepo.Items.{count_by_status, count_pending_all_statuses}
use tools_tele_t_ng.Runner.State.{Runner}
use tools_tele_t_ng.Runner.Actions.{is_parent}
use tools_tele_t_ng.Runner.Parents.{
  Verdict, all_completed, all_cancelled, some_paused, some_failed, undecided, is_failed, any_of,
  verdict,
}
use tools_tele_t_ng.Routes.Jobs.{
  Detail, is_running, is_rate_limited, shown_status, sum_of, detail_status, parent_detail,
  single_detail, detail_each, job_detail,
}

-- The status that a verdict writes, but for a parent with a paused and a failed branch; no verdict
-- writes CREATED.
abbrev pub agreed : List JobStatus → Verdict → JobStatus
agreed statuses all_completed = JobStatus.completed
agreed statuses all_cancelled = JobStatus.cancelled
agreed statuses some_paused =
    if any_of is_failed statuses then JobStatus.failed else JobStatus.paused
agreed statuses some_failed = JobStatus.failed
agreed statuses undecided = JobStatus.created

abbrev pub by_verdict : List JobStatus → JobStatus
by_verdict statuses =
    if any_of is_running statuses
    then JobStatus.running
    else if any_of is_rate_limited statuses
    then JobStatus.rate_limited
    else agreed statuses (verdict statuses)

shown_status-verdict : (statuses : List JobStatus) → shown_status statuses ≡ by_verdict statuses
unfolding shown_status verdict
shown_status-verdict statuses = ground arith

-- Each is a job of the table, and no parent.
abbrev pub AreBranches : List Job → Db → Type 0
AreBranches [] db = Unit {0}
AreBranches (j ∷ rest) db = (get j.id db ≡ some j) × (is_parent j ≡ false) × AreBranches rest db

abbrev pub sum_over : (Job → ℕ) → List Job → ℕ
sum_over f [] = 0
sum_over f (j ∷ rest) = f j + sum_over f rest

abbrev count_of : CheckStatus → Db → Job → ℕ
count_of status db j = count_by_status j.id status db

-- Each number of a page is the sum of its branches' own: their stored counters, and their items by
-- status.
pub record AreSums (now : Moment) (db : Db) (branches : List Job) (d : Detail) : Type 0 where
  pub total : d.total ≡ sum_over (λ j. j.total_items) branches
  pub processed : d.processed ≡ sum_over (λ j. j.processed_items) branches
  pub found : d.found ≡ sum_over (count_of CheckStatus.found db) branches
  pub not_discoverable :
      d.not_discoverable ≡ sum_over (count_of CheckStatus.not_discoverable db) branches
  pub retry_queue : d.retry_queue ≡ sum_over (count_of CheckStatus.retry_required db) branches
  pub errors : d.errors ≡ sum_over (count_of CheckStatus.permanent_error db) branches
  pub pending : d.pending ≡ sum_over (λ j. count_pending_all_statuses now j.id db) branches

abbrev pub status_of : Job → JobStatus
status_of j = j.status

module _ (account_key : Key → Key) (api_phone : Option Key) (now : Moment) (r : Runner) where
  abbrev branch_details : List Job → List Detail
  branch_details [] = []
  branch_details (j ∷ rest) = single_detail account_key api_phone now j r ∷ branch_details rest

  detail_each-branches :
      (depth : ℕ) (js : List Job)
      → AreBranches js r.db
      → detail_each account_key api_phone
          (λ k. job_detail account_key api_phone (suc depth) now k r)
          js
        ≡ some (branch_details js)
  unfolding job_detail
  detail_each-branches depth [] b = refl
  detail_each-branches depth (j ∷ rest) b =
      rw (b.0, detail_each, job_detail) (rw (b.1) (rw (detail_each-branches depth rest b.2)))

  branch-statuses : (js : List Job) → map detail_status (branch_details js) ≡ map status_of js
  unfolding single_detail
  branch-statuses [] = refl
  branch-statuses (j ∷ rest) = ap (◌∷◌ j.status) (branch-statuses rest)

  -- A sum over what is shown of the branches is one over the branches.
  branch-sums :
      (shown : Detail → ℕ) (stored : Job → ℕ) (js : List Job)
      → ((j : Job) → shown (single_detail account_key api_phone now j r) ≡ stored j)
      → sum_of shown (branch_details js) ≡ sum_over stored js
  branch-sums shown stored [] same = refl
  branch-sums shown stored (j ∷ rest) same =
      ap₂ (λ a b. a + b) (same j) (branch-sums shown stored rest same)

  -- What the page of a parent shows is what its branches are, where these are jobs of the table and no
  -- parents: it is there, two levels of jobs deep; each of its seven numbers is the sum over the
  -- branches, total and processed of the counters stored with them, and found, not discoverable, retry
  -- queue, errors and pending of their items by status; and its status is the one that the runner writes
  -- for the same branches, unless a branch is RUNNING or RATE_LIMITED, which is shown first, or one is
  -- PAUSED and another FAILED, where the runner writes PAUSED and the page shows FAILED. Where the
  -- runner writes nothing, the page shows CREATED.
  pub job_detail-branches :
      (depth : ℕ) (j : Job)
      → get j.id r.db ≡ some j
      → is_parent j ≡ true
      → let children = list_children j.id r.db in
        AreBranches children r.db
        → (d : Detail) × (job_detail account_key api_phone (suc (suc depth)) now j.id r ≡ some d)
          × (d.status ≡ by_verdict (map status_of children))
          × AreSums now r.db children d
  unfolding job_detail parent_detail single_detail
  job_detail-branches depth j here parent branches =
      let children = list_children j.id r.db in
      (
        parent_detail j (branch_details children) r,
        rw (here, job_detail) (rw parent (rw (detail_each-branches depth children branches))),
        ap shown_status (branch-statuses children) ∙ shown_status-verdict (map status_of children),
        record {
          total = branch-sums (λ d. d.total) _ children (λ j. refl);
          processed = branch-sums (λ d. d.processed) _ children (λ j. refl);
          found = branch-sums (λ d. d.found) _ children (λ j. refl);
          not_discoverable = branch-sums (λ d. d.not_discoverable) _ children (λ j. refl);
          retry_queue = branch-sums (λ d. d.retry_queue) _ children (λ j. refl);
          errors = branch-sums (λ d. d.errors) _ children (λ j. refl);
          pending = branch-sums (λ d. d.pending) _ children (λ j. refl);
        },
      )
