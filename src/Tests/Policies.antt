-- ===== src/Tests/Policies.antt =====
-- The retry policy, the rate limiter and the lease keeper, at concrete values.
use tools_tele_t_ng.Base.{
  ℕ, ◌+◌, ◌≡◌, ◌↔◌, refl, true, false, ◌&&◌, none, some, List, [], ◌∷◌, find, arith,
}
use tools_tele_t_ng.Models.Rows.{CheckItem}
use tools_tele_t_ng.Database.{item_key}
use tools_tele_t_ng.ResultRepo.Claims.{owner_guard}
use tools_tele_t_ng.ResultRepo.Results.{token_guard}
use tools_tele_t_ng.ResultRepo.Fencing.{guards_of}
use tools_tele_t_ng.RetryQueue.Schedule.{item_max, schedule_retry}
use tools_tele_t_ng.RetryQueue.Attempts.{Scheduled, schedule_retry-Scheduled}
use tools_tele_t_ng.Tests.Data.{queue, one_item}
use tools_tele_t_ng.Database.{Db}
use tools_tele_t_ng.JobRepo.JobLease.{renew_worker}
use tools_tele_t_ng.JobRepo.AccountLeases.{renew_account}
use tools_tele_t_ng.RetryQueue.Policy.{calculate_next_retry_delay}
use tools_tele_t_ng.RateLimiter.State.{Limiter, reload_from_db}
use tools_tele_t_ng.RateLimiter.Acquire.{acquire}
use tools_tele_t_ng.RateLimiter.Cooldown.{Acquired, acquire_returns}
use tools_tele_t_ng.LeaseKeeper.Keeper.{
  interval, no_fault, at_job, at_account, renew_once, note_renewal, heartbeat,
}
use tools_tele_t_ng.LeaseKeeper.Heartbeats.{Beat, run_beats, renewals, run_beats_lost}
use tools_tele_t_ng.LeaseKeeper.FailClosed.{HasRun}
use tools_tele_t_ng.Tests.Data.{held_job, in_work, tables, keeper, limiter}

third_delay : calculate_next_retry_delay 3 none 30 3600 none ≡ 120
unfolding calculate_next_retry_delay
third_delay = refl

abbrev blocked : Limiter
blocked = record limiter { blocked_until = some 2500 }

acquire_returns_example :
    (result : ℕ × Limiter × Db) × (acquire 3 1000 blocked (tables held_job in_work) ≡ some result)
    × Acquired blocked 1000
        (reload_from_db 1000 blocked (tables held_job in_work)).blocked_until
        result
unfolding reload_from_db
acquire_returns_example =
    acquire_returns 2 1000 blocked (tables held_job in_work) (λ b e. ground arith)

-- A renewal, then three that cannot be made: two database errors, and a lease that is gone.
abbrev beats : List Beat
beats =
    record { now = 50; fault = no_fault; db = tables held_job in_work }
    ∷ record { now = 60; fault = at_job; db = tables held_job in_work }
    ∷ record { now = 70; fault = at_account; db = tables held_job in_work }
    ∷ record { now = 200; fault = no_fault; db = tables held_job in_work }
    ∷ []

run_beats_lost_example :
    ((run_beats beats keeper).ownership_lost ≡ true) ↔ HasRun 3 (renewals beats keeper)
run_beats_lost_example = run_beats_lost beats keeper refl refl (omega arith)

gives_up : (run_beats beats keeper).ownership_lost ≡ true
unfolding heartbeat renew_once renew_worker renew_account note_renewal
gives_up = refl

default_interval : interval 20 ≡ 5000
unfolding interval
default_interval = refl

abbrev phone : List ℕ
phone = b'+' ∷ b'8' ∷ b'4' ∷ b'9' ∷ b'1' ∷ b'2' ∷ b'3' ∷ []

schedule_retry-Scheduled_example :
    let db = tables held_job in_work in
    let g = guards_of 21 7 11 in
    let allowed = token_guard g.processing_token in_work && owner_guard 50 g.owner db in_work in
    let delay = calculate_next_retry_delay (in_work.attempt_count + 1) none 30 3600 none in
    let (db', written) = schedule_retry 50 none queue in_work (some "e") none none g db in
    (written ≡ allowed)
    × (allowed ≡ true
        → (row : CheckItem) × (find item_key 1 db'.check_items ≡ some row)
          × Scheduled 50 (item_max queue in_work) delay in_work row)
    × (allowed ≡ false → db' ≡ db)
schedule_retry-Scheduled_example =
    schedule_retry-Scheduled 50 none queue in_work (some "e") none none (guards_of 21 7 11)
      (tables held_job in_work) in_work (one_item in_work) refl
