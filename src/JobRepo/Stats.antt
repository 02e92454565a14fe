-- ===== src/JobRepo/Stats.antt =====
-- JobRepository: the counters of a job, recomputed from its items.
use tools_tele_t_ng.Base.{true, false, ℕ, ◌&&◌, Bool, count_where, ◌==◌}
use tools_tele_t_ng.Models.Clock.{Moment}
use tools_tele_t_ng.Models.Status.{
  CheckStatus, is_found, is_not_discoverable, is_permanent_error, is_retry_status,
}
use tools_tele_t_ng.Models.Rows.{Key}
use tools_tele_t_ng.Database.{Db, update_jobs}

unfoldable pub update_totals : Moment → Key → ℕ → ℕ → ℕ → ℕ → ℕ → ℕ → Db → Db
update_totals now job_id total processed found retry failed not_disc =
    update_jobs (λ j. j.id == job_id)
      (λ j. record j {
        total_items = total;
        processed_items = processed;
        found_items = found;
        retry_items = retry;
        failed_items = failed;
        not_discoverable_items = not_disc;
        updated_at = now;
      })

-- The statuses that the query counts as processed.
abbrev pub is_processed_status : CheckStatus → Bool
is_processed_status CheckStatus.found = true
is_processed_status CheckStatus.not_discoverable = true
is_processed_status CheckStatus.permanent_error = true
is_processed_status CheckStatus.retry_required = true
is_processed_status CheckStatus.temporary_error = true
is_processed_status CheckStatus.rate_limited = true
is_processed_status _ = false

-- `SUM(CASE WHEN status … THEN 1 ELSE 0 END)` over the items of a job.
abbrev pub tally : Key → (CheckStatus → Bool) → Db → ℕ
tally job_id p db = count_where (λ i. (i.job_id == job_id) && p i.status) db.check_items

unfoldable pub reconcile_stats : Moment → Key → Db → Db
unfolding update_totals
reconcile_stats now job_id db =
    update_totals now job_id (tally job_id (λ _. true) db) (tally job_id is_processed_status db)
      (tally job_id is_found db) (tally job_id is_retry_status db)
      (tally job_id is_permanent_error db) (tally job_id is_not_discoverable db) db
