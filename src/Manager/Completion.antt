-- ===== src/Manager/Completion.antt =====
-- A job comes to its end: the turn that finds nothing left to do.
use tools_tele_t_ng.Base.{
  subst, ℕ, ◌≡◌, refl, ap, sym, ◌∙◌, true, false, not, ◌&&◌, none, some, List, [], ◌∷◌, find,
  IsUnique, first_where, count_where, ◌==◌, arith, Option-cases, inl, inr,
}
use tools_tele_t_ng.Models.Clock.{Moment}
use tools_tele_t_ng.Models.Status.{JobStatus, JobCommand, is_terminal_status}
use tools_tele_t_ng.Models.Rows.{Key, Job, CheckItem}
use tools_tele_t_ng.Database.{Db, job_key}
use tools_tele_t_ng.JobRepo.Jobs.{get, get_requested_command}
use tools_tele_t_ng.JobRepo.JobLease.{is_job_owned_by}
use tools_tele_t_ng.Checkpoint
use tools_tele_t_ng.Checkpoint.{next_item}
use tools_tele_t_ng.ResultRepo.Items.{is_selectable, next_due_item, has_unfinished_items}
use tools_tele_t_ng.RetryQueue.Schedule.{RetryQueue}
use tools_tele_t_ng.RateLimiter.State.{Limiter, to_iso, is_blocked}
use tools_tele_t_ng.Worker.Core.{Worker}
use tools_tele_t_ng.Worker.Turn.{
  World, no_more, poll_persisted_command, assert_live_owner, choose_item, work, by_command, turn,
}
use tools_tele_t_ng.Worker.Machine.{Machine, stopped, polling, normally, turns, at, finish, step}
use tools_tele_t_ng.Manager.Endings.{conclude-owned}
use tools_tele_t_ng.Manager.Runs.{returns, conclude}

-- Where no item is unfinished, none can be selected.
nothing_selectable :
    (now job : ℕ) (items : List CheckItem)
    → count_where (λ i. (i.job_id == job) && not (is_terminal_status i.status)) items ≡ 0
    → first_where (λ i. (i.job_id == job) && is_selectable now i) items ≡ none
nothing_selectable now job [] e = refl
nothing_selectable now job (i ∷ items) e = ground (arith, nothing_selectable now job items)

next_item-none :
    (now job : ℕ) (db : Db) → has_unfinished_items job db ≡ false → next_item now job db ≡ none
unfolding next_item next_due_item has_unfinished_items
next_item-none now job db e = nothing_selectable now job db.check_items (ground arith)

-- The world behind the last turn.
ended : ℕ → World → World
ended ms s = record s {
  worker = record ((assert_live_owner (to_iso ms) s.worker s.db).1) {
    paused_on_rate_limit = false;
  };
}

choose-no_more :
    (now job : ℕ) (s : World)
    → has_unfinished_items job s.db ≡ false
    → choose_item now job s ≡ (no_more, s)
unfolding choose_item Checkpoint.has_unfinished_items
choose-no_more now job s e = rw (choose_item, next_item-none now job s.db e, e) refl

unblocked :
    (ms : ℕ) (l : Limiter) (db : Db) → l.blocked_until ≡ none → is_blocked ms l db ≡ (false, l, db)
unfolding is_blocked
unblocked ms l db e = ground arith

work-no_more :
    (ms job : ℕ) (s : World)
    → (assert_live_owner (to_iso ms) s.worker s.db).0 ≡ true
    → s.limiter.blocked_until ≡ none
    → has_unfinished_items job s.db ≡ false
    → work ms job s ≡ (no_more, ended ms s)
unfolding work ended
work-no_more ms job s owned free settled =
    rw (work, owned, unblocked ms s.limiter s.db free) (choose-no_more (to_iso ms) job _ settled)

turn-no_more :
    (ms job : ℕ) (s : World)
    → s.worker.command ≡ JobCommand.none
    → get_requested_command job s.db ≡ JobCommand.none
    → (assert_live_owner (to_iso ms) s.worker s.db).0 ≡ true
    → s.limiter.blocked_until ≡ none
    → has_unfinished_items job s.db ≡ false
    → turn ms job s ≡ (no_more, ended ms s)
unfolding turn by_command poll_persisted_command
turn-no_more ms job s quiet unasked owned free settled =
    rw (turn, poll_persisted_command, unasked)
      (ap (λ c. by_command c ms job s) quiet ∙ work-no_more ms job s owned free settled)

same_fields :
    (now : Moment) (w : Worker) (db : Db)
    → let w' = (assert_live_owner now w db).1 in
      (w'.worker_id ≡ w.worker_id)
      × (w'.cancelled_by_command ≡ w.cancelled_by_command)
      × (w'.paused_requested ≡ w.paused_requested)
unfolding assert_live_owner
same_fields now w db = elim (Option-cases w.lease_keeper) [
  | inl e ↦ ground arith
  | inr (k, e) ↦ ground arith
]

finish-ended :
    (ms job : ℕ) (s : World)
    → s.worker.cancelled_by_command ≡ false
    → s.worker.paused_requested ≡ false
    → let m = finish ms job normally (ended ms s) in
      (m.phase ≡ stopped normally)
      × (m.world.db ≡ s.db)
      × (m.world.worker.worker_id ≡ s.worker.worker_id)
      × (m.world.worker.cancelled_by_command ≡ false)
      × (m.world.worker.paused_on_rate_limit ≡ false)
unfolding finish ended
finish-ended ms job s uncancelled unpaused =
    let same = same_fields (to_iso ms) s.worker s.db in
    (refl, ground (arith, same), ground (arith, same), ground (arith, same), refl)

requested :
    (job : ℕ) (db : Db) (j : Job)
    → find job_key job db.jobs ≡ some j
    → j.requested_command ≡ JobCommand.none
    → get_requested_command job db ≡ JobCommand.none
unfolding get_requested_command get
requested job db j here unasked = ground arith

-- A run whose worker ended on these tables, in the terms of `conclude`.
concludes :
    (later job : ℕ) (w : Worker) (worker : Key) (db db' : Db) (j : Job)
    → db' ≡ db
    → w.worker_id ≡ worker
    → IsUnique job_key db.jobs
    → find job_key job db.jobs ≡ some j
    → w.cancelled_by_command ≡ false
    → w.paused_on_rate_limit ≡ false
    → has_unfinished_items job db ≡ false
    → is_job_owned_by later job worker db ≡ true
    → (conclude later job w db').0 ≡ returns JobStatus.completed
concludes later job w worker db db' j same_db same_id unique here uncancelled unlimited settled
      held =
    subst (λ d. (conclude later job w d).0 ≡ returns JobStatus.completed) (sym same_db)
      (conclude-owned later job w db j unique here uncancelled unlimited settled
        (subst (λ k. is_job_owned_by later job k db ≡ true) (sym same_id) held))

-- A job that is done is COMPLETED: where every item is settled, no command waits, the account is not
-- blocked, and the worker passes the ownership check, its next turn ends the loop normally, and the run
-- then returns COMPLETED if the worker's lease is still running.
pub settled_job_completes :
    (q : RetryQueue) (ms later job : ℕ) (s : World) (j : Job)
    → IsUnique job_key s.db.jobs
    → find job_key job s.db.jobs ≡ some j
    → s.worker.cancel ≡ false
    → s.worker.cancelled_by_command ≡ false
    → s.worker.paused_requested ≡ false
    → s.worker.command ≡ JobCommand.none
    → j.requested_command ≡ JobCommand.none
    → (assert_live_owner (to_iso ms) s.worker s.db).0 ≡ true
    → s.limiter.blocked_until ≡ none
    → has_unfinished_items job s.db ≡ false
    → is_job_owned_by later job s.worker.worker_id s.db ≡ true
    → let m = step q job (turns ms) (at polling s) in
      (m.phase ≡ stopped normally)
      × ((conclude later job m.world.worker m.world.db).0 ≡ returns JobStatus.completed)
unfolding step
settled_job_completes q ms later job s j unique here live uncancelled unpaused quiet unasked owned
      free settled held =
    let e : step q job (turns ms) (at polling s) ≡ finish ms job normally (ended ms s) =
      rw (turn-no_more ms job s quiet (requested job s.db j here unasked) owned free settled, live)
        refl in
    let law = finish-ended ms job s uncancelled unpaused in
    let m = finish ms job normally (ended ms s) in
    subst
      (λ (m : Machine).
        (m.phase ≡ stopped normally)
        × ((conclude later job m.world.worker m.world.db).0 ≡ returns JobStatus.completed))
      (sym e)
      (
        law.0,
        concludes later job m.world.worker s.worker.worker_id s.db m.world.db j law.1 law.2 unique
            here law.3 law.4 settled held,
      )
