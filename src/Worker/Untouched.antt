-- ===== src/Worker/Untouched.antt =====
-- Steps of the worker's machine that do not touch the items.
use tools_tele_t_ng.Base.{
  either_branch, ℕ, ◌≡◌, refl, ◌∙◌, Bool, true, ltb, arith, Bool-cases, Option-cases, inl, inr,
}
use tools_tele_t_ng.Models.Clock.{Moment}
use tools_tele_t_ng.Models.Status.{JobCommand}
use tools_tele_t_ng.Database.{Db}
use tools_tele_t_ng.JobRepo.Jobs.{clear_requested_command, set_requested_command}
use tools_tele_t_ng.JobRepo.JobLease.{renew_worker}
use tools_tele_t_ng.JobRepo.AccountLeases.{renew_account}
use tools_tele_t_ng.JobRepo.Control.{acknowledge_pause}
use tools_tele_t_ng.LeaseKeeper.Keeper.{
  Keeper, Fault, no_fault, at_job, at_account, renew_once, heartbeat,
}
use tools_tele_t_ng.RateLimiter.State.{Limiter, to_iso, persist, is_blocked}
use tools_tele_t_ng.Worker.Core.{Worker}
use tools_tele_t_ng.Worker.Turn.{
  World, Turn, assert_live_owner, poll_persisted_command, choose_item, work, by_command, turn,
}
use tools_tele_t_ng.Worker.Answers.{upsert_cooldown-tables}
use tools_tele_t_ng.Worker.Machine.{Machine, Ending, finish, after_turn, beat, poll}

persist-items :
    (ms : ℕ) (clear : Bool) (l : Limiter) (db : Db)
    → (persist ms clear l db).check_items ≡ db.check_items
unfolding persist
persist-items ms clear l db = elim (Option-cases l.account_key) [
  | inl e ↦ rw (persist, e) refl
  | inr (account, e) ↦ elim (Bool-cases clear) [
    | inl c ↦ rw (persist, e, c) (upsert_cooldown-tables account _ _ _ db).0
    | inr c ↦ rw (persist, e, c) (upsert_cooldown-tables account _ _ _ db).0
  ]
]

pub is_blocked-items :
    (ms : ℕ) (l : Limiter) (db : Db) → (is_blocked ms l db).2.check_items ≡ db.check_items
unfolding is_blocked
is_blocked-items ms l db = elim (Option-cases l.blocked_until) [
  | inl e ↦ rw (is_blocked, e) refl
  | inr (b, e) ↦ elim (Bool-cases (ltb ms b)) [
    | inl c ↦ rw (is_blocked, e, c) refl
    | inr c ↦ rw (is_blocked, e, c) (persist-items ms true _ db)
  ]
]

poll_persisted_command-items :
    (now job : ℕ) (w : Worker) (db : Db)
    → (poll_persisted_command now job w db).1.check_items ≡ db.check_items
unfolding poll_persisted_command clear_requested_command set_requested_command
poll_persisted_command-items now job w db = ground arith

choose_item-items :
    (now job : ℕ) (s : World) → (choose_item now job s).1.db.check_items ≡ s.db.check_items
unfolding choose_item
choose_item-items now job s = ground arith

work-items : (ms job : ℕ) (s : World) → (work ms job s).1.db.check_items ≡ s.db.check_items
unfolding work
work-items ms job s = elim (Bool-cases (assert_live_owner (to_iso ms) s.worker s.db).0) [
  | inl owned ↦ elim (Bool-cases (is_blocked ms s.limiter s.db).0) [
    | inl blocked ↦ rw (work, owned, blocked) (is_blocked-items ms s.limiter s.db)
    | inr free ↦
        rw (work, owned, free)
          (choose_item-items (to_iso ms) job _ ∙ is_blocked-items ms s.limiter s.db)
  ]
  | inr lost ↦ rw (work, lost) refl
]

by_command-items :
    (command : JobCommand) (ms job : ℕ) (s : World)
    → (by_command command ms job s).1.db.check_items ≡ s.db.check_items
unfolding by_command
by_command-items JobCommand.cancel ms job s = refl
by_command-items JobCommand.pause ms job s = refl
by_command-items JobCommand.resume ms job s = work-items ms job _
by_command-items JobCommand.none ms job s = work-items ms job s

turn-items : (ms job : ℕ) (s : World) → (turn ms job s).1.db.check_items ≡ s.db.check_items
unfolding turn
turn-items ms job s =
    by_command-items _ ms job _ ∙ poll_persisted_command-items (to_iso ms) job s.worker s.db

pub finish-items :
    (ms job : ℕ) (ending : Ending) (s : World)
    → (finish ms job ending s).world.db.check_items ≡ s.db.check_items
unfolding finish acknowledge_pause
finish-items ms job ending s = ground arith

after_turn-items :
    (ms job : ℕ) (t : Turn) (s : World)
    → (after_turn ms job (t, s)).world.db.check_items ≡ s.db.check_items
unfolding after_turn
after_turn-items ms job Turn.cancelled s = finish-items ms job Ending.normally s
after_turn-items ms job Turn.paused s = finish-items ms job Ending.normally s
after_turn-items ms job Turn.lost s = finish-items ms job Ending.ownership_lost s
after_turn-items ms job Turn.waits_for_rate s = refl
after_turn-items ms job Turn.waits_for_retry s = refl
after_turn-items ms job Turn.no_more s = finish-items ms job Ending.normally s
after_turn-items ms job (Turn.takes item) s = refl

pub poll-items : (ms job : ℕ) (s : World) → (poll ms job s).world.db.check_items ≡ s.db.check_items
unfolding poll
poll-items ms job s =
    either_branch (λ (m : Machine). m.world.db.check_items ≡ s.db.check_items) s.worker.cancel
      (finish-items ms job Ending.normally s)
      (after_turn-items ms job (turn ms job s).0 (turn ms job s).1 ∙ turn-items ms job s)

heartbeat-items :
    (now : Moment) (fault : Fault) (k : Keeper) (db : Db)
    → (heartbeat now fault k db).1.check_items ≡ db.check_items
unfolding heartbeat renew_once renew_worker renew_account
heartbeat-items now no_fault k db = ground arith
heartbeat-items now at_job k db = ground arith
heartbeat-items now at_account k db = ground arith

pub beat-items :
    (ms : ℕ) (fault : Fault) (s : World) → (beat ms fault s).db.check_items ≡ s.db.check_items
unfolding beat
beat-items ms fault s = elim (Option-cases s.worker.lease_keeper) [
  | inl e ↦ rw (beat, e) refl
  | inr (k, e) ↦ rw (beat, e) (heartbeat-items (to_iso ms) fault k s.db)
]
