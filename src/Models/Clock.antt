-- ===== src/Models/Clock.antt =====
-- The time helpers of telegram_phone_number_checker/models.py, over whole seconds. `now` is what
-- the clock shows when a function reads it.
use tools_tele_t_ng.Base.{ℕ, ◌+◌, ◌-◌, Option, none, some}

abbrev pub Moment : Type 0
Moment = ℕ

-- `parse_iso` of a nullable column: `None` or an empty text has no moment.
abbrev pub parse_iso : Option Moment → Option Moment
parse_iso value = value

-- The seconds left, 0 if past: the subtraction stops at 0 as `max(0.0, …)` does.
abbrev pub seconds_until_iso : Moment → Option Moment → ℕ
seconds_until_iso now none = 0
seconds_until_iso now (some target) = target - now

abbrev pub seconds_since_iso : Moment → Option Moment → ℕ
seconds_since_iso now none = 0
seconds_since_iso now (some target) = now - target

abbrev pub iso_from_offset : Moment → ℕ → Moment
iso_from_offset now delay = now + delay
