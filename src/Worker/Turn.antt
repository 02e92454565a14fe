-- ===== src/Worker/Turn.antt =====
-- One turn of the loop of `Worker.process`, up to the choice of an item.
use tools_tele_t_ng.Base.{ℕ, Bool, true, false, none, some, if◌then◌else◌}
use tools_tele_t_ng.Models.Clock.{Moment}
use tools_tele_t_ng.Models.Status.{JobCommand, is_no_command}
use tools_tele_t_ng.Models.Rows.{Key, CheckItem}
use tools_tele_t_ng.Database.{Db}
use tools_tele_t_ng.JobRepo.Jobs.{get_requested_command, clear_requested_command}
use tools_tele_t_ng.LeaseKeeper.Keeper.{assert_ownership}
use tools_tele_t_ng.Checkpoint.{next_item, has_unfinished_items}
use tools_tele_t_ng.RateLimiter.State.{Limiter, to_iso, is_blocked}
use tools_tele_t_ng.Worker.Core.{Worker}

-- What a worker works with.
pub record World : Type 0 where
  pub worker : Worker
  pub limiter : Limiter
  pub db : Db

unfoldable pub poll_persisted_command : Moment → Key → Worker → Db → Worker × Db
poll_persisted_command now job_id w db =
    let command = get_requested_command job_id db in
    if is_no_command command
    then (w, db)
    else (record w { command = command }, clear_requested_command now job_id db)

-- `_assert_live_owner`: without a keeper nothing is checked.
unfoldable pub assert_live_owner : Moment → Worker → Db → Bool × Worker
assert_live_owner now w db = elim w.lease_keeper [
  | none ↦ (true, w)
  | some k ↦
      let (owned, k') = assert_ownership now k db in (owned, record w { lease_keeper = some k' })
]

-- How a turn ends: the loop is left by a command, the lost lease or the end of the items, or it
-- waits and comes again, or it takes an item.
pub data Turn : Type 0 where
  cancelled paused lost waits_for_rate waits_for_retry no_more : Turn
  takes : CheckItem → Turn

unfoldable pub choose_item : Moment → Key → World → Turn × World
choose_item now job_id s = elim (next_item now job_id s.db) [
  | some item ↦ (takes item, s)
  | none ↦ if has_unfinished_items job_id s.db then (waits_for_retry, s) else (no_more, s)
]

-- Behind the commands: the ownership gate, then the rate limit, then the items.
unfoldable pub work : ℕ → Key → World → Turn × World
unfolding choose_item
work ms job_id s =
    let now = to_iso ms in
    let (owned, w) = assert_live_owner now s.worker s.db in
    let (blocked, r, db) = is_blocked ms s.limiter s.db in
    if owned
    then if blocked
      then (
        waits_for_rate,
        record { worker = record w { paused_on_rate_limit = true }; limiter = r; db = db },
      )
      else choose_item now job_id
          (record { worker = record w { paused_on_rate_limit = false }; limiter = r; db = db })
    else (lost, record s { worker = w })

unfoldable pub by_command : JobCommand → ℕ → Key → World → Turn × World
unfolding work
by_command JobCommand.cancel ms job_id s = (
  cancelled,
  record s {
    worker = record (s.worker) { command = JobCommand.none; cancelled_by_command = true };
  },
)
by_command JobCommand.pause ms job_id s = (
  paused,
  record s { worker = record (s.worker) { command = JobCommand.none; paused_requested = true } },
)
by_command JobCommand.resume ms job_id s =
    work ms job_id (record s { worker = record (s.worker) { command = JobCommand.none } })
by_command JobCommand.none ms job_id s = work ms job_id s

unfoldable pub turn : ℕ → Key → World → Turn × World
unfolding by_command
turn ms job_id s =
    let (w, db) = poll_persisted_command (to_iso ms) job_id s.worker s.db in
    by_command w.command ms job_id (record s { worker = w; db = db })
