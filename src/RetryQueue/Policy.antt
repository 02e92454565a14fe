-- ===== src/RetryQueue/Policy.antt =====
-- `calculate_next_retry_delay`. Attempts count from 1. `jitter` is the scaling by a random factor
-- between 0.5 and 1.0, cut to whole seconds, or `none` where jitter is off.
use tools_tele_t_ng.Base.{
  zero, ℕ, suc, ◌-◌, ◌*◌, ◌/◌, ◌^◌, ◌≤◌, ◌<◌, ◌≡◌, Option, none, some, ltb, if◌then◌else◌, arith,
}
use Prim.Native.Nat.{min}
use native.Mathlib.Nat.{pow-suc}

-- `server_retry_after is not None and server_retry_after > 0`
abbrev pub server_delay : Option ℕ → Option ℕ
server_delay none = none
server_delay (some s) = if ltb 0 s then some s else none

abbrev pub backoff : ℕ → ℕ → ℕ → ℕ
backoff attempt base_delay max_delay = min max_delay (base_delay * 2 ^ (attempt - 1))

abbrev pub jittered : Option (ℕ → ℕ) → ℕ → ℕ
jittered none delay = delay
jittered (some shrink) delay = shrink delay

unfoldable pub calculate_next_retry_delay : ℕ → Option ℕ → ℕ → ℕ → Option (ℕ → ℕ) → ℕ
calculate_next_retry_delay attempt server base_delay max_delay jitter = elim (server_delay server) [
  | some seconds ↦ seconds
  | none ↦ jittered jitter (backoff attempt base_delay max_delay)
]

unfoldable pub compute_backoff : ℕ → ℕ → ℕ → Option (ℕ → ℕ) → ℕ
unfolding calculate_next_retry_delay
compute_backoff attempt base_delay max_delay jitter =
    calculate_next_retry_delay attempt none base_delay max_delay jitter

-- What `random.uniform(0.5, 1.0)` promises of the scaled delay.
abbrev pub IsJitter : (ℕ → ℕ) → Type 0
IsJitter shrink = (delay : ℕ) → (delay / 2 ≤ shrink delay) × (shrink delay ≤ delay)

pow_pos : (n : ℕ) → 1 ≤ 2 ^ n
pow_pos zero = omega arith
pow_pos (suc n) = simp pow-suc (omega (arith, pow_pos n))

scaled_le : (b p : ℕ) → 1 ≤ p → b ≤ b * p
scaled_le b p h = grind arith

backoff-le : (attempt base_delay max_delay : ℕ) → backoff attempt base_delay max_delay ≤ max_delay
backoff-le attempt base_delay max_delay = omega arith

min-le-backoff :
    (attempt base_delay max_delay : ℕ)
    → min max_delay base_delay ≤ backoff attempt base_delay max_delay
min-le-backoff attempt base_delay max_delay =
    omega (arith, scaled_le base_delay (2 ^ (attempt - 1)) (pow_pos (attempt - 1)))

-- The policy of the delays. A positive wait that the server gives is taken as it is, neither cut by
-- the configured maximum nor scaled. Without one the delay is never above the maximum, and never
-- below half of the smaller of the maximum and the base delay.
calculate_next_retry_delay_bounds :
    (attempt : ℕ) (server : Option ℕ) (base_delay max_delay : ℕ) (shrink : ℕ → ℕ)
    → IsJitter shrink
    → let delay = calculate_next_retry_delay attempt server base_delay max_delay (some shrink) in
      ((s : ℕ) → server ≡ some s → 0 < s → delay ≡ s)
      × (server_delay server ≡ none → (delay ≤ max_delay) × (min max_delay base_delay / 2 ≤ delay))
unfolding calculate_next_retry_delay
calculate_next_retry_delay_bounds attempt server base_delay max_delay shrink law = (
  λ s e h. ground arith,
  λ e.
      rw (e, calculate_next_retry_delay)
        (
          omega (
            arith,
            law (backoff attempt base_delay max_delay),
            backoff-le attempt base_delay max_delay,
          ),
          omega (
            arith,
            law (backoff attempt base_delay max_delay),
            min-le-backoff attempt base_delay max_delay,
          ),
        ),
)
