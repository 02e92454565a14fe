-- ===== src/JobRepo/Counters.antt =====
-- What the counters of a job say after `reconcile_stats`.
use tools_tele_t_ng.Base.{
  ℕ, ◌+◌, ◌≡◌, refl, ◌≤◌, Bool, true, false, not, ◌&&◌, some, List, [], ◌∷◌, find, find-update_id,
  count_where, ltb, ◌==◌, arith,
}
use tools_tele_t_ng.Models.Status.{
  CheckStatus, is_found, is_not_discoverable, is_permanent_error, is_retry_status,
  is_terminal_status,
}
use tools_tele_t_ng.Models.Rows.{Key, Job, CheckItem}
use tools_tele_t_ng.Database.{Db, job_key}
use tools_tele_t_ng.JobRepo.Stats.{tally, is_processed_status, reconcile_stats}
use tools_tele_t_ng.ResultRepo.Items.{has_unfinished_items}

-- The counts of one job's rows.
module _ (job : Key) where
  abbrev counts : (CheckStatus → Bool) → List CheckItem → ℕ
  counts p rows = count_where (λ i. (i.job_id == job) && p i.status) rows

  counts_split :
      (rows : List CheckItem)
      → counts is_processed_status rows
        ≡ counts is_found rows
          + counts is_retry_status rows
          + counts is_permanent_error rows
          + counts is_not_discoverable rows
  counts_split [] = refl
  counts_split (i ∷ rows) = ground (arith, counts_split rows)

  counts_all : (rows : List CheckItem) → counts is_processed_status rows ≤ counts (λ _. true) rows
  counts_all [] = omega arith
  counts_all (i ∷ rows) = ground (arith, counts_all rows)

  counts_done :
      (rows : List CheckItem)
      → counts (λ _. true) rows + counts is_retry_status rows
        ≤ counts is_processed_status rows + counts (λ s. not (is_terminal_status s)) rows
  counts_done [] = omega arith
  counts_done (i ∷ rows) = ground (arith, counts_done rows)

-- After the counters have been recomputed, a job counts as processed exactly its found, retried,
-- failed and not discoverable numbers, never more than its total; if no item is unfinished, all are
-- processed and none waits for a retry. Its status and its lease are left alone.
pub reconcile_stats_lem :
    (now job : ℕ) (db : Db) (j : Job)
    → find job_key job db.jobs ≡ some j
    → (j' : Job) × (find job_key job (reconcile_stats now job db).jobs ≡ some j')
      × (j'.processed_items
          ≡ j'.found_items + j'.retry_items + j'.failed_items + j'.not_discoverable_items)
      × (j'.processed_items ≤ j'.total_items)
      × (has_unfinished_items job db ≡ false
          → (j'.processed_items ≡ j'.total_items) × (j'.retry_items ≡ 0))
      × (j'.status ≡ j.status)
      × (j'.worker_id ≡ j.worker_id)
      × (j'.worker_lease_until ≡ j.worker_lease_until)
unfolding reconcile_stats has_unfinished_items
reconcile_stats_lem now job db j here =
    let rows = db.check_items in
    let f = λ (j : Job). record j {
      total_items = tally job (λ _. true) db;
      processed_items = tally job is_processed_status db;
      found_items = tally job is_found db;
      retry_items = tally job is_retry_status db;
      failed_items = tally job is_permanent_error db;
      not_discoverable_items = tally job is_not_discoverable db;
      updated_at = now;
    } in
    let all_done : ltb 0 (counts job (λ s. not (is_terminal_status s)) rows) ≡ false
        → (counts job is_processed_status rows ≡ counts job (λ _. true) rows)
          × (counts job is_retry_status rows ≡ 0) =
      λ e. ground (arith, counts_all job rows, counts_done job rows) in
    (
      f j,
      find-update_id job_key job f db.jobs j (λ j. refl) here,
      counts_split job rows,
      counts_all job rows,
      all_done,
      refl,
      refl,
      refl,
    )
