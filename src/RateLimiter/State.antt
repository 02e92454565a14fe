-- ===== src/RateLimiter/State.antt =====
-- `RateLimitManager`, all but `acquire`.
use tools_tele_t_ng.Base.{
  ℕ, ◌+◌, ◌-◌, ◌*◌, ◌/◌, Bool, true, false, Option, none, some, [], ◌∷◌, ◌++◌, find, update_where,
  ltb, leb, ◌==◌, if◌then◌else◌,
}
use tools_tele_t_ng.Models.Clock.{Moment}
use tools_tele_t_ng.Models.Rows.{Key}
use tools_tele_t_ng.Database.{Db, cooldown_key}

-- `account_key` is missing if the limiter has no database or no account: nothing is persisted then.
pub record Limiter : Type 0 where
  pub min_interval : Option ℕ
  pub account_key : Option Key
  pub last_request_at : Option ℕ
  pub blocked_until : Option ℕ

-- A fresh `RateLimitManager`.
abbrev pub new_limiter : Option ℕ → Option Key → Limiter
new_limiter min_interval account_key = record {
  min_interval = min_interval;
  account_key = account_key;
  last_request_at = none;
  blocked_until = none;
}

-- `isoformat(timespec="seconds")` of an epoch in milliseconds, and `_to_epoch` of it.
abbrev pub to_iso : ℕ → Moment
to_iso ms = ms / 1000

abbrev pub to_epoch : Moment → ℕ
to_epoch m = m * 1000

-- `blocked_until` of the account's row, if there is a row and a time in it.
abbrev pub persisted_block : Option Key → Db → Option Moment
persisted_block none db = none
persisted_block (some account) db = elim (find cooldown_key account db.account_runtime_state) [
  | none ↦ none
  | some row ↦ row.blocked_until
]

-- `self._blocked_until is None or time.time() >= self._blocked_until`
abbrev pub forget_past : ℕ → Limiter → Limiter
forget_past now r = elim r.blocked_until [
  | none ↦ r
  | some b ↦ if leb b now then record r { blocked_until = none } else r
]

unfoldable pub reload_from_db : ℕ → Limiter → Db → Limiter
reload_from_db now r db = elim r.account_key [
  | none ↦ r
  | some _ ↦ elim (persisted_block r.account_key db) [
    | none ↦ forget_past now r
    | some m ↦
        if ltb now (to_epoch m)
        then record r { blocked_until = some (to_epoch m) }
        else forget_past now r
  ]
]

unfoldable pub initialize : ℕ → Limiter → Db → Limiter
initialize now r db = reload_from_db now r db

-- `INSERT … ON CONFLICT(account_key) DO UPDATE`; an existing row keeps its `last_rate_limit_at`.
abbrev pub upsert_cooldown : Key → Option Moment → Option Moment → Moment → Db → Db
upsert_cooldown account blocked limited now db =
    elim (find cooldown_key account db.account_runtime_state) [
      | none ↦ record db {
        account_runtime_state =
            db.account_runtime_state
            ++ record {
              account_key = account;
              blocked_until = blocked;
              last_request_at = none;
              last_rate_limit_at = limited;
              updated_at = now;
            }
              ∷ [];
      }
      | some _ ↦ record db {
        account_runtime_state =
            update_where (λ c. c.account_key == account)
              (λ c. record c { blocked_until = blocked; updated_at = now })
              db.account_runtime_state;
      }
    ]

abbrev pub iso_of_block : Option ℕ → Option Moment
iso_of_block none = none
iso_of_block (some b) = some (to_iso b)

unfoldable pub persist : ℕ → Bool → Limiter → Db → Db
persist now clear r db = elim r.account_key [
  | none ↦ db
  | some account ↦
      if clear
      then upsert_cooldown account none none (to_iso now) db
      else upsert_cooldown account (iso_of_block r.blocked_until) (some (to_iso now)) (to_iso now)
          db
]

unfoldable pub is_blocked : ℕ → Limiter → Db → Bool × Limiter × Db
is_blocked now r db = elim r.blocked_until [
  | none ↦ (false, r, db)
  | some b ↦
      if ltb now b
      then (true, r, db)
      else let r' = record r { blocked_until = none } in (false, r', persist now true r' db)
]

unfoldable pub remaining_block_seconds : ℕ → Limiter → ℕ
remaining_block_seconds now r = elim r.blocked_until [ none ↦ 0 | some b ↦ b - now ]

unfoldable pub available_at : ℕ → Limiter → Db → Option ℕ × Limiter × Db
unfolding is_blocked
available_at now r db =
    let (blocked, r', db') = is_blocked now r db in
    (if blocked then r'.blocked_until else none, r', db')

unfoldable pub register_success : ℕ → Limiter → Limiter
register_success now r = record r { last_request_at = some now }

unfoldable pub register_rate_limit : ℕ → ℕ → Limiter → Db → Limiter × Db
register_rate_limit now seconds r db =
    let r' = record r { blocked_until = some (now + seconds * 1000) } in
    (r', persist now false r' db)
