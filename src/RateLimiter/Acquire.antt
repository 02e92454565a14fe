-- ===== src/RateLimiter/Acquire.antt =====
-- `RateLimitManager.acquire`. `asyncio.sleep` moves the clock on by the time that is slept.
use tools_tele_t_ng.Base.{ℕ, zero, suc, ◌+◌, ◌-◌, true, Option, none, some, ltb, if◌then◌else◌}
use Prim.Native.Nat.{min}
use tools_tele_t_ng.Database.{Db}
use tools_tele_t_ng.RateLimiter.State.{Limiter, reload_from_db, persist}

-- `while time.time() < blocked_until: sleep(min(blocked_until - time.time(), 1.0))`: the time at
-- which it ends, or `none` if the fuel has run out.
unfoldable pub sleep_until : ℕ → ℕ → ℕ → Option ℕ
sleep_until zero b now = none
sleep_until (suc fuel) b now =
    let rest = sleep_until fuel b (now + min (b - now) 1000) in if ltb now b then rest else some now

-- The pause that keeps `min_interval` between two requests: `gap - (now - last)`, if positive.
abbrev pub pace : ℕ → Limiter → ℕ
pace now r = elim r.min_interval [
  | none ↦ now
  | some gap ↦ elim r.last_request_at [ none ↦ now | some last ↦ now + (last + gap - now) ]
]

unfoldable pub acquire : ℕ → ℕ → Limiter → Db → Option (ℕ × Limiter × Db)
unfolding reload_from_db persist sleep_until
acquire fuel now r db =
    let r' = reload_from_db now r db in
    elim r'.blocked_until [
      | none ↦ some (pace now r', r', db)
      | some b ↦ elim (sleep_until fuel b now) [
        | none ↦ none
        | some later ↦
            let free = record r' { blocked_until = none } in
            some (pace later free, free, persist later true free db)
      ]
    ]
