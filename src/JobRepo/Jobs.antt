-- ===== src/JobRepo/Jobs.antt =====
-- JobRepository: creation, reading and the unguarded writes.
use tools_tele_t_ng.Base.{
  ◌||◌, ℕ, Bool, true, false, not, ◌&&◌, Option, none, some, List, [], ◌∷◌, ◌++◌, String, find,
  select_where, first_where, holds, is_null, ◌==◌, leb, ltb, if◌then◌else◌,
}
use tools_tele_t_ng.Models.Clock.{Moment}
use tools_tele_t_ng.Models.Status.{JobStatus, JobCommand, is_completed, is_cancelled}
use tools_tele_t_ng.Models.Rows.{Key, Job, JobMode}
use tools_tele_t_ng.Database.{Db, job_key, update_jobs}

-- The row that the INSERT of `create` leaves to the column defaults.
abbrev pub new_job : Moment → Key → Option String → ℕ → Option Key → JobMode → Option Key → Job
new_job now job_id name total account mode parent = record {
  id = job_id;
  name = name;
  status = JobStatus.created;
  total_items = total;
  processed_items = 0;
  found_items = 0;
  retry_items = 0;
  failed_items = 0;
  not_discoverable_items = 0;
  requested_command = JobCommand.none;
  worker_heartbeat_at = none;
  worker_id = none;
  worker_lease_until = none;
  last_error_type = none;
  last_error_message = none;
  pause_requested_at = none;
  paused_at = none;
  worker_started_at = none;
  telegram_account_phone = account;
  job_mode = mode;
  parent_job_id = parent;
  created_at = now;
  started_at = none;
  finished_at = none;
  updated_at = now;
}

unfoldable pub get : Key → Db → Option Job
get job_id db = find job_key job_id db.jobs

-- `none` is the integrity error of a second row with one primary key.
unfoldable pub create :
    Moment → Key → Option String → ℕ → Option Key → JobMode → Option Key → Db → Option (Db × Job)
unfolding get
create now job_id name total account mode parent db = elim (get job_id db) [
  | some _ ↦ none
  | none ↦
      let job = new_job now job_id name total account mode parent in
      some (record db { jobs = db.jobs ++ job ∷ [] }, job)
]

-- Rows ordered by `created_at`: an insertion sort that keeps rows of one time in table order.
insert_by : (Job → Job → Bool) → Job → List Job → List Job
insert_by before j [] = j ∷ []
insert_by before j (x ∷ xs) = if before j x then j ∷ x ∷ xs else x ∷ insert_by before j xs

sort_by : (Job → Job → Bool) → List Job → List Job
unfolding insert_by
sort_by before [] = []
sort_by before (x ∷ xs) = insert_by before x (sort_by before xs)

abbrev newest_first : Job → Job → Bool
newest_first a b = leb b.created_at a.created_at

-- `ORDER BY created_at, id`; identifiers are numbered in the order of their texts.
abbrev oldest_first : Job → Job → Bool
oldest_first a b =
    ltb a.created_at b.created_at || ((a.created_at == b.created_at) && leb a.id b.id)

unfoldable pub list : Db → List Job
unfolding sort_by
list db = sort_by newest_first db.jobs

unfoldable pub list_roots : Db → List Job
unfolding sort_by
list_roots db = sort_by newest_first (select_where (λ j. is_null j.parent_job_id) db.jobs)

unfoldable pub list_children : Key → Db → List Job
unfolding sort_by
list_children parent db =
    sort_by oldest_first (select_where (λ j. holds j.parent_job_id parent) db.jobs)

abbrev is_multi : JobMode → Bool
is_multi JobMode.multi_parent = true
is_multi _ = false

unfoldable pub is_multi_parent : Key → Db → Bool
unfolding get
is_multi_parent job_id db = elim (get job_id db) [ none ↦ false | some j ↦ is_multi j.job_mode ]

unfoldable pub update_status : Moment → Key → JobStatus → Db → Db
update_status now job_id status =
    update_jobs (λ j. j.id == job_id) (λ j. record j { status = status; updated_at = now })

unfoldable pub set_requested_command : Moment → Key → JobCommand → Db → Db
set_requested_command now job_id command =
    update_jobs (λ j. j.id == job_id)
      (λ j. record j { requested_command = command; updated_at = now })

unfoldable pub get_requested_command : Key → Db → JobCommand
unfolding get
get_requested_command job_id db = elim (get job_id db) [
  | none ↦ JobCommand.none
  | some j ↦ j.requested_command
]

unfoldable pub clear_requested_command : Moment → Key → Db → Db
unfolding set_requested_command
clear_requested_command now job_id = set_requested_command now job_id JobCommand.none

unfoldable pub touch_heartbeat : Moment → Key → Db → Db
touch_heartbeat now job_id =
    update_jobs (λ j. j.id == job_id)
      (λ j. record j { worker_heartbeat_at = some now; updated_at = now })

unfoldable pub record_job_error : Moment → Key → String → Option String → Db → Db
record_job_error now job_id error_type message =
    update_jobs (λ j. j.id == job_id)
      (λ j. record j {
        last_error_type = some error_type;
        last_error_message = message;
        updated_at = now;
      })

unfoldable pub mark_started : Moment → Key → Db → Db
mark_started now job_id =
    update_jobs (λ j. j.id == job_id)
      (λ j. record j {
        status = JobStatus.running;
        requested_command = JobCommand.none;
        started_at = some now;
        updated_at = now;
      })

unfoldable pub mark_finished : Moment → Key → Db → Db
mark_finished now job_id =
    update_jobs (λ j. j.id == job_id)
      (λ j. record j { status = JobStatus.completed; finished_at = some now; updated_at = now })

unfoldable pub has_unfinished_jobs_for_account : Key → Db → Bool
has_unfinished_jobs_for_account phone db = not (
    is_null (
      first_where
        (λ j.
          holds j.telegram_account_phone phone
          && not (is_completed j.status)
          && not (is_cancelled j.status))
        db.jobs))
