-- ===== src/Validation/Checks.antt =====
-- `validate_database_state`. A finding is a constructor with what its message names.
use tools_tele_t_ng.Base.{
  ℕ, Bool, true, false, not, ◌&&◌, ◌||◌, Option, none, some, List, [], ◌∷◌, ◌++◌, first_where,
  count_where, is_null, holds, after, ltb, ◌==◌, if◌then◌else◌,
}
use tools_tele_t_ng.Models.Clock.{Moment}
use tools_tele_t_ng.Models.Status.{
  JobStatus, is_terminal_status, is_non_terminal_status, is_processing, is_in_flight_unknown,
  is_completed, is_paused, is_active,
}
use tools_tele_t_ng.Models.Rows.{Key, Job, CheckItem}
use tools_tele_t_ng.Database.{Db, AccountLease}
use tools_tele_t_ng.JobRepo.Jobs.{get}
use tools_tele_t_ng.JobRepo.Stats.{tally}

pub data Severity : Type 0 where
  error warn : Severity

pub data Finding : Type 0 where
  completed_with_worker completed_with_heartbeat paused_with_lease completed_with_lease
        running_without_worker ended_with_owner ended_with_account :
      Key → Finding
  paused_with_account : Key → Key → Finding
  settled_not_completed completed_not_settled processing_without_token unknown_without_recovery :
      ℕ → Finding
  completed_unfinished : Key → ℕ → Finding
  split_ownership : Key → Key → Key → Finding
  duplicate_worker : Key → ℕ → Finding

abbrev pub severity : Finding → Severity
severity (running_without_worker job) = warn
severity (completed_not_settled item) = warn
severity _ = error

-- One test of the scan.
abbrev pub report : Bool → Finding → List Finding
report found f = if found then f ∷ [] else []

-- A text that is neither NULL nor empty.
abbrev pub is_given : Option Key → Bool
is_given none = false
is_given (some k) = not (k == 0)

abbrev pub is_running : JobStatus → Bool
is_running JobStatus.running = true
is_running _ = false

-- `status in ("COMPLETED", "FAILED", "CANCELLED")`
abbrev pub is_ended : JobStatus → Bool
is_ended JobStatus.completed = true
is_ended JobStatus.failed = true
is_ended JobStatus.cancelled = true
is_ended _ = false

unfoldable pub job_findings : Moment → Job → List Finding
job_findings now j =
    report (is_completed j.status && not (is_null j.worker_id)) (completed_with_worker j.id)
    ++ report (is_completed j.status && not (is_null j.worker_heartbeat_at))
        (completed_with_heartbeat j.id)
    ++ report (is_paused j.status && after j.worker_lease_until now) (paused_with_lease j.id)
    ++ report (is_completed j.status && after j.worker_lease_until now) (completed_with_lease j.id)
    ++ report (is_running j.status && is_null j.worker_id) (running_without_worker j.id)

-- The first account row of the job is the one that is looked at.
unfoldable pub paused_account_findings : Moment → Db → Job → List Finding
paused_account_findings now db j =
    elim (first_where (λ a. holds a.job_id j.id) db.account_worker_state) [
      | none ↦ []
      | some a ↦ elim a.worker_id [
        | none ↦ []
        | some w ↦
            report (is_paused j.status && (not (w == 0) && after a.worker_lease_until now))
              (paused_with_account j.id w)
      ]
    ]

unfoldable pub item_findings : CheckItem → List Finding
item_findings i =
    report (is_terminal_status i.status && is_null i.completed_at) (settled_not_completed i.id)
    ++ report (is_non_terminal_status i.status && not (is_null i.completed_at))
        (completed_not_settled i.id)
    ++ report (is_processing i.status && not (is_given i.processing_token))
        (processing_without_token i.id)
    ++ report (is_in_flight_unknown i.status && is_null i.recovery_after)
        (unknown_without_recovery i.id)

unfoldable pub unfinished_findings : Db → Job → List Finding
unfinished_findings db j =
    let unfinished = tally j.id (λ s. not (is_terminal_status s)) db in
    report (is_completed j.status && ltb 0 unfinished) (completed_unfinished j.id unfinished)

unfoldable pub owner_findings : Db → Job → List Finding
unfolding get
owner_findings db j = elim (get j.id db) [
  | none ↦ []
  | some row ↦
      report
        (is_ended j.status && (not (is_null row.worker_id) || not (is_null row.worker_lease_until)))
        (ended_with_owner j.id)
]

-- The worker of an account and that of its job, where both are named and differ.
abbrev pub split_findings : Moment → AccountLease → Key → Job → List Finding
split_findings now a job j = elim a.worker_id [
  | none ↦ []
  | some aw ↦ elim j.worker_id [
    | none ↦ []
    | some jw ↦
        report (not (aw == 0) && not (jw == 0) && not (aw == jw) && after a.worker_lease_until now)
          (split_ownership aw jw job)
  ]
]

unfoldable pub account_findings : Moment → Db → AccountLease → List Finding
unfolding get
account_findings now db a = elim a.job_id [
  | none ↦ []
  | some job ↦ elim (get job db) [
    | none ↦ []
    | some j ↦
        split_findings now a job j
        ++ report (is_ended j.status && after a.worker_lease_until now) (ended_with_account job)
  ]
]

-- `GROUP BY worker_id HAVING COUNT(*) > 1` over the active jobs: each worker stands at its first job.
abbrev pub owns_active : Key → Job → Bool
owns_active worker j = holds j.worker_id worker && is_active j.status

duplicates : List Job → List Job → List Job → List Finding
duplicates all before [] = []
duplicates all before (j ∷ js) =
    let rest = duplicates all (j ∷ before) js in
    elim j.worker_id [
      | none ↦ rest
      | some w ↦
          let n = count_where (owns_active w) all in
          report (is_active j.status && is_null (first_where (owns_active w) before) && ltb 1 n)
            (duplicate_worker w n)
          ++ rest
    ]

-- The findings of each row, in the order of the rows.
abbrev pub scan : {R : Type 0} → (R → List Finding) → List R → List Finding
scan f [] = []
scan f (r ∷ rs) = f r ++ scan f rs

unfoldable pub validate_database_state : Moment → Db → List Finding
unfolding duplicates
validate_database_state now db =
    scan (job_findings now) db.jobs
    ++ scan (paused_account_findings now db) db.jobs
    ++ scan item_findings db.check_items
    ++ scan (unfinished_findings db) db.jobs
    ++ scan (owner_findings db) db.jobs
    ++ scan (account_findings now db) db.account_worker_state
    ++ duplicates db.jobs [] db.jobs
