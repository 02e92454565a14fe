-- ===== src/Worker/Requests.antt =====
-- A request of `Worker._acquire_and_run_one`: when it goes out, and what becomes of its answer.
use tools_tele_t_ng.Base.{
  ap, ◌∙◌, true, false, ℕ, ◌≡◌, refl, Option, some, find, IsUnique, write_lem, if◌then◌else◌, arith,
  Option-cases, inl, inr,
}
use tools_tele_t_ng.Models.Clock.{Moment, iso_from_offset}
use tools_tele_t_ng.Models.Rows.{Key, CheckItem, CheckResponse}
use tools_tele_t_ng.Database.{Db, item_key, job_key}
use tools_tele_t_ng.JobRepo.JobLease.{is_job_owned_by}
use tools_tele_t_ng.Checkpoint.{mark_processing}
use tools_tele_t_ng.JobRepo.AccountLeases.{is_account_owned_by}
use tools_tele_t_ng.LeaseKeeper.Keeper.{Keeper, has_account, assert_ownership}
use tools_tele_t_ng.LeaseKeeper.FailClosed.{assert_ownership_iff}
use tools_tele_t_ng.ResultRepo.Items.{is_selectable}
use tools_tele_t_ng.ResultRepo.Claims.{
  worker_of, claim_row, is_claimed, quarantine_row, mark_in_flight_unknown,
}
use tools_tele_t_ng.ResultRepo.Fencing.{mark_processing_lem, job_is_leased-eq-is_job_owned_by}
use tools_tele_t_ng.RetryQueue.Schedule.{RetryQueue}
use tools_tele_t_ng.RateLimiter.State.{to_iso}
use tools_tele_t_ng.Worker.Core.{Worker}
use tools_tele_t_ng.Worker.Turn.{World, assert_live_owner}
use tools_tele_t_ng.Worker.Machine.{acquiring, in_flight, begins, at, after_begin, finish, step}
use tools_tele_t_ng.Worker.Request.{
  Begin, sent, not_claimed, lost, begin_request, quarantine_in_flight, settle,
}

-- What a check of ownership leaves a worker with.
assert_live_owner-worker_id :
    (now : Moment) (w : Worker) (db : Db) → (assert_live_owner now w db).1.worker_id ≡ w.worker_id
unfolding assert_live_owner
assert_live_owner-worker_id now w db = elim (Option-cases w.lease_keeper) [
  | inl e ↦ ground arith
  | inr (k, e) ↦ ground arith
]

-- What the ownership check has found of the worker's keeper, where there is one: it has not noted a
-- loss, and its leases on its job and on its account are running.
abbrev pub IsKept : Moment → Worker → Db → Type 0
IsKept now w db =
    (k : Keeper)
    → w.lease_keeper ≡ some k
    → (k.ownership_lost ≡ false)
      × (is_job_owned_by now k.job_id k.worker_id db ≡ true)
      × ((account : Key)
          → has_account k.account_key ≡ some account
          → is_account_owned_by now account k.worker_id k.job_id db ≡ true)

assert_live_owner-IsKept :
    (now : Moment) (w : Worker) (db : Db) → (assert_live_owner now w db).0 ≡ true → IsKept now w db
unfolding assert_live_owner
assert_live_owner-IsKept now w db owned k keeper =
    (assert_ownership_iff now k db).0.0 (ground (arith, keeper, owned))

-- A request goes out only for an item that could be taken at that moment, by a worker whose check of
-- ownership succeeds, whose lease on the item's job is running, and with the item's row in PROCESSING
-- under the very token that the request carries; otherwise the database is left as it was.
begin_request-Sent :
    (ms token job : ℕ) (item i : CheckItem) (s : World)
    → IsUnique item_key s.db.check_items
    → IsUnique job_key s.db.jobs
    → find item_key item.id s.db.check_items ≡ some i
    → let (b, s') = begin_request ms token job item s in
      ((t : Key)
        → b ≡ sent t
        → (t ≡ token)
          × (is_selectable (to_iso ms) i ≡ true)
          × (is_job_owned_by (to_iso ms) job s.worker.worker_id s.db ≡ true)
          × (find item_key item.id s'.db.check_items ≡ some (claim_row (to_iso ms) token i))
          × IsKept (to_iso ms) s.worker s.db)
      × (b ≡ not_claimed → s'.db ≡ s.db)
      × (b ≡ lost → s'.db ≡ s.db)
unfolding begin_request mark_processing
begin_request-Sent ms token job item i s unique unique_jobs here =
    let now = to_iso ms in
    let w = (assert_live_owner now s.worker s.db).1 in
    let same = assert_live_owner-worker_id now s.worker s.db in
    let law =
      mark_processing_lem now item.id s.db i unique here token (worker_of job w.worker_id) in
    let owned = job_is_leased-eq-is_job_owned_by now i.job_id w.worker_id s.db unique_jobs in
    (
      λ t h. (
        ground (arith, law, owned, same),
        ground (arith, law, owned, same),
        ground (arith, law, owned, same),
        ground (arith, law, owned, same),
        assert_live_owner-IsKept now s.worker s.db (ground arith),
      ),
      λ h. ground (arith, law),
      λ h. ground arith,
    )

-- Only a claim that succeeds leads to a request.
after_begin-in_flight :
    (ms job : ℕ) (item : CheckItem) (b : Begin) (s : World) (other : CheckItem) (t : Key)
    → (after_begin ms job item (b, s)).phase ≡ in_flight other t
    → (b ≡ sent t) × (other ≡ item) × ((after_begin ms job item (b, s)).world ≡ s)
unfolding after_begin finish
after_begin-in_flight ms job item (sent token) s other t e = (ground arith, ground arith, refl)
after_begin-in_flight ms job item not_claimed s other t e = absurd (ground arith)
after_begin-in_flight ms job item lost s other t e = absurd (ground arith)

-- What holds when the machine's step behind `acquire` puts a request in flight, where items and jobs
-- have identifiers of their own: it is for the item that was chosen, which could still be taken, and
-- under the token that was drawn; if the worker has a keeper, this has noted no loss, and its leases
-- on its job and on its account are running; the worker's lease on the job is running; and the item
-- stands in PROCESSING under that token.
pub step-Sent :
    (q : RetryQueue) (ms token job : ℕ) (item i : CheckItem) (s : World) (other : CheckItem)
    (t : Key)
    → IsUnique item_key s.db.check_items
    → IsUnique job_key s.db.jobs
    → find item_key item.id s.db.check_items ≡ some i
    → let m = step q job (begins ms token) (at (acquiring item) s) in
      m.phase ≡ in_flight other t
      → (other ≡ item)
        × (t ≡ token)
        × (is_selectable (to_iso ms) i ≡ true)
        × (is_job_owned_by (to_iso ms) job s.worker.worker_id s.db ≡ true)
        × (find item_key item.id m.world.db.check_items ≡ some (claim_row (to_iso ms) token i))
        × IsKept (to_iso ms) s.worker s.db
unfolding step
step-Sent q ms token job item i s other t unique unique_jobs here e =
    let r = begin_request ms token job item s in
    let flies = after_begin-in_flight ms job item r.0 r.1 other t e in
    let law = (begin_request-Sent ms token job item i s unique unique_jobs here).0 t flies.0 in
    (
      flies.1,
      law.0,
      law.1,
      law.2,
      ap (λ w. find item_key item.id w.db.check_items) flies.2 ∙ law.3,
      law.4,
    )

-- An answer that comes after ownership was lost writes no result: the call raises, and the item,
-- if it still stands under the worker's token, goes into quarantine for the grace; the jobs are left
-- alone.
pub settle-quarantines :
    (ms token job : ℕ) (jitter : Option (ℕ → ℕ)) (q : RetryQueue) (item i : CheckItem)
    (r : CheckResponse) (s : World) (k : Keeper)
    → s.worker.lease_keeper ≡ some k
    → (assert_ownership (to_iso ms) k s.db).0 ≡ false
    → IsUnique item_key s.db.check_items
    → find item_key item.id s.db.check_items ≡ some i
    → let now = to_iso ms in
      let (ok, s') = settle ms jitter q job item token r s in
      let recovery = iso_from_offset now s.worker.in_flight_recovery_grace_seconds in
      (ok ≡ false)
      × (find item_key item.id s'.db.check_items
          ≡ some (
              if is_claimed token i
              then quarantine_row now recovery "Ownership lost while Telegram request was in flight"
                  i
              else i))
      × (s'.db.jobs ≡ s.db.jobs)
unfolding settle assert_live_owner quarantine_in_flight mark_in_flight_unknown
settle-quarantines ms token job jitter q item i r s k keeper unowned unique here =
    let now = to_iso ms in
    let f =
      quarantine_row now (iso_from_offset now s.worker.in_flight_recovery_grace_seconds)
        "Ownership lost while Telegram request was in flight" in
    let law =
      write_lem item_key item.id (is_claimed token) f s.db.check_items i (λ i. refl) unique here in
    (ground arith, ground (arith, law), ground arith)
