-- ===== src/RateLimiter/Cooldown.antt =====
-- How long a request waits: the loop of `acquire` ends, a cooldown outlives its process, and what
-- the text of its end loses.
use tools_tele_t_ng.Base.{
  ℕ, zero, suc, ◌+◌, ◌-◌, ◌*◌, ◌%◌, ◌≡◌, ◌≢◌, refl, ◌≤◌, ◌<◌, ◌∙◌, Bool, true, false, Option, none,
  some, find, find-append, find-update_where, find-key, ltb, ◌==◌, if◌then◌else◌, arith,
  Option-cases, inl, inr,
}
use Prim.Native.Nat.{min, max}
use tools_tele_t_ng.Models.Clock.{Moment}
use tools_tele_t_ng.Models.Rows.{Key}
use tools_tele_t_ng.Database.{Db, cooldown_key}
use tools_tele_t_ng.RateLimiter.State.{
  Limiter, new_limiter, to_iso, to_epoch, persisted_block, upsert_cooldown, reload_from_db,
  initialize, persist, register_rate_limit,
}
use tools_tele_t_ng.RateLimiter.Acquire.{sleep_until, pace, acquire}

-- With fuel for the seconds that are left, the loop ends when the block does, or at once.
sleep_until-max :
    (fuel b now : ℕ) → b ≤ now + 1000 * fuel → sleep_until (suc fuel) b now ≡ some (max b now)
unfolding sleep_until
sleep_until-max zero b now h = ground arith
sleep_until-max (suc fuel) b now h =
    ground (arith, sleep_until-max fuel b (now + min (b - now) 1000))

upsert_cooldown-block :
    (account : Key) (blocked limited : Option Moment) (now : Moment) (db : Db)
    → persisted_block (some account) (upsert_cooldown account blocked limited now db) ≡ blocked
upsert_cooldown-block account blocked limited now db =
    elim (Option-cases (find cooldown_key account db.account_runtime_state)) [
      | inl fresh ↦ ground (
        arith,
        find-append cooldown_key account db.account_runtime_state (record {
          account_key = account;
          blocked_until = blocked;
          last_request_at = none;
          last_rate_limit_at = limited;
          updated_at = now;
        }),
      )
      | inr (c, here) ↦ ground (
        arith,
        find-update_where cooldown_key account (λ c. c.account_key == account)
            (λ c. record c { blocked_until = blocked; updated_at = now }) db.account_runtime_state
            (λ c. refl),
        find-key cooldown_key account db.account_runtime_state c here,
      )
    ]

-- What a limiter reads back of the cooldown that one of the same account has registered.
persisted_cooldown :
    (ms seconds account : ℕ) (r : Limiter) (db : Db)
    → r.account_key ≡ some account
    → persisted_block (some account) (register_rate_limit ms seconds r db).1
      ≡ some (to_iso (ms + seconds * 1000))
unfolding register_rate_limit persist
persisted_cooldown ms seconds account r db named =
    rw (named, persist)
      (upsert_cooldown-block account (some (to_iso (ms + seconds * 1000))) (some (to_iso ms))
        (to_iso ms) db)

-- A cooldown outlives its process: a fresh limiter of the account that is initialised later is
-- blocked until the end of the registered wait, cut to the second, if that has not come; so less
-- than a second of the wait is lost. Otherwise it is not blocked.
pub cooldown_survives :
    (ms seconds account later : ℕ) (r : Limiter) (gap : Option ℕ) (db : Db)
    → r.account_key ≡ some account
    → let db' = (register_rate_limit ms seconds r db).1 in
      let end = ms + seconds * 1000 in
      let restored = initialize later (new_limiter gap (some account)) db' in
      (restored.blocked_until
        ≡ (if ltb later (to_epoch (to_iso end)) then some (to_epoch (to_iso end)) else none))
      × (to_epoch (to_iso end) ≤ end)
      × (end < to_epoch (to_iso end) + 1000)
unfolding initialize reload_from_db
cooldown_survives ms seconds account later r gap db named =
    let kept = persisted_cooldown ms seconds account r db named in
    (ground (arith, kept), omega arith, omega arith)

-- What `acquire` promises when it returns at the time `t`.
abbrev pub Acquired : Limiter → ℕ → Option ℕ → ℕ × Limiter × Db → Type 0
Acquired r now block (t, r', db') =
    (now ≤ t)
    × (r'.blocked_until ≡ none)
    × ((b : ℕ) → block ≡ some b → b ≤ t)
    × ((gap last : ℕ) → r.min_interval ≡ some gap → r.last_request_at ≡ some last → last + gap ≤ t)

pace_lem :
    (now : ℕ) (r : Limiter)
    → (now ≤ pace now r)
      × ((gap last : ℕ)
          → r.min_interval ≡ some gap
          → r.last_request_at ≡ some last
          → last + gap ≤ pace now r)
pace_lem now r = (ground arith, λ gap last g l. ground arith)

-- Reading the table again touches the block alone.
reload_from_db-pacing :
    (now : ℕ) (r : Limiter) (db : Db)
    → ((reload_from_db now r db).min_interval ≡ r.min_interval)
      × ((reload_from_db now r db).last_request_at ≡ r.last_request_at)
unfolding reload_from_db
reload_from_db-pacing now r db = ground arith

abbrev freed : ℕ → Limiter → Db → Limiter
freed now r db = record (reload_from_db now r db) { blocked_until = none }

acquire-blocked :
    (fuel now b : ℕ) (r : Limiter) (db : Db)
    → (reload_from_db now r db).blocked_until ≡ some b
    → b ≤ now + 1000 * fuel
    → acquire (suc fuel) now r db
      ≡ some (
        pace (max b now) (freed now r db),
        freed now r db,
        persist (max b now) true (freed now r db) db,
      )
unfolding acquire
acquire-blocked fuel now b r db e enough = rw (e, acquire) (rw (sleep_until-max fuel b now enough))

acquire-open :
    (fuel now : ℕ) (r : Limiter) (db : Db)
    → (reload_from_db now r db).blocked_until ≡ none
    → acquire (suc fuel) now r db
      ≡ some (pace now (reload_from_db now r db), reload_from_db now r db, db)
unfolding acquire
acquire-open fuel now r db e = rw (e, acquire)

-- `acquire` returns: with fuel for the seconds of the block that the limiter knows once it has read
-- the table again, it ends, not before that block does, with at least the configured interval behind
-- the last request, and the limiter is not blocked any more.
pub acquire_returns :
    (fuel now : ℕ) (r : Limiter) (db : Db)
    → ((b : ℕ) → (reload_from_db now r db).blocked_until ≡ some b → b ≤ now + 1000 * fuel)
    → (result : ℕ × Limiter × Db) × (acquire (suc fuel) now r db ≡ some result)
      × Acquired r now (reload_from_db now r db).blocked_until result
acquire_returns fuel now r db enough =
    let same = reload_from_db-pacing now r db in
    elim (Option-cases (reload_from_db now r db).blocked_until) [
      | inl open_now ↦
          let paced = pace_lem now (reload_from_db now r db) in
          (
            _,
            acquire-open fuel now r db open_now,
            (
              paced.0,
              open_now,
              λ b e. ground arith,
              λ gap last g l. paced.1 gap last (same.0 ∙ g) (same.1 ∙ l),
            ),
          )
      | inr (b, blocked) ↦
          let paced = pace_lem (max b now) (freed now r db) in
          (
            _,
            acquire-blocked fuel now b r db blocked (enough b blocked),
            (
              omega (arith, paced.0),
              refl,
              λ c e. ground (arith, paced.0),
              λ gap last g l. paced.1 gap last (same.0 ∙ g) (same.1 ∙ l),
            ),
          )
    ]

upsert_cooldown-accounts :
    (account : Key) (blocked limited : Option Moment) (now : Moment) (db : Db)
    → (upsert_cooldown account blocked limited now db).account_worker_state
      ≡ db.account_worker_state
upsert_cooldown-accounts account blocked limited now db =
    elim (Option-cases (find cooldown_key account db.account_runtime_state)) [
      | inl e ↦ rw (upsert_cooldown, e)
      | inr (c, e) ↦ rw (upsert_cooldown, e)
    ]

persist-accounts :
    (now : ℕ) (clear : Bool) (r : Limiter) (db : Db)
    → (persist now clear r db).account_worker_state ≡ db.account_worker_state
unfolding persist
persist-accounts now true r db = elim (Option-cases r.account_key) [
  | inl e ↦ rw e
  | inr (account, e) ↦ rw e (upsert_cooldown-accounts account _ _ _ db)
]
persist-accounts now false r db = elim (Option-cases r.account_key) [
  | inl e ↦ rw e
  | inr (account, e) ↦ rw e (upsert_cooldown-accounts account _ _ _ db)
]

reload_from_db-key :
    (now : ℕ) (r : Limiter) (db : Db) → (reload_from_db now r db).account_key ≡ r.account_key
unfolding reload_from_db
reload_from_db-key now r db = ground arith

-- `acquire` leaves the leases of the accounts alone, and the limiter's own account.
pub acquire_kept :
    (fuel now t : ℕ) (r r' : Limiter) (db db' : Db)
    → acquire fuel now r db ≡ some (t, r', db')
    → (db'.account_worker_state ≡ db.account_worker_state) × (r'.account_key ≡ r.account_key)
unfolding acquire
acquire_kept fuel now t r r' db db' e =
    elim (Option-cases (reload_from_db now r db).blocked_until) [
      | inl open_now ↦ ground (arith, reload_from_db-key now r db)
      | inr (b, blocked) ↦ elim (Option-cases (sleep_until fuel b now)) [
        | inl out ↦ ground arith
        | inr (later, done) ↦
            ground
              (arith, reload_from_db-key now r db, persist-accounts later true (freed now r db) db)
      ]
    ]

cut_end :
    (ms seconds account later : ℕ) (r : Limiter) (db : Db)
    → r.account_key ≡ some account
    → later < to_epoch (to_iso (ms + seconds * 1000))
    → let (r', db') = register_rate_limit ms seconds r db in
      (reload_from_db later r' db').blocked_until ≡ some (to_epoch (to_iso (ms + seconds * 1000)))
unfolding reload_from_db register_rate_limit
cut_end ms seconds account later r db named before =
    ground (arith, persisted_cooldown ms seconds account r db named)

-- The wait is cut short by the limiter's own record: a limiter that has registered a wait with an
-- end between two seconds, and then acquires before the second of that end, takes the cut end from
-- the table for its own and lets the request through before the wait is over.
acquire_early :
    (ms seconds account later fuel : ℕ) (r : Limiter) (db : Db)
    → r.account_key ≡ some account
    → r.min_interval ≡ none
    → (ms + seconds * 1000) % 1000 ≢ 0
    → later < to_epoch (to_iso (ms + seconds * 1000))
    → to_epoch (to_iso (ms + seconds * 1000)) ≤ later + 1000 * fuel
    → let (r', db') = register_rate_limit ms seconds r db in
      (t : ℕ) × (end : Limiter × Db) × (acquire (suc fuel) later r' db' ≡ some (t, end.0, end.1))
      × (t < ms + seconds * 1000)
unfolding register_rate_limit
acquire_early ms seconds account later fuel r db named free between before enough =
    let end = to_epoch (to_iso (ms + seconds * 1000)) in
    let s = register_rate_limit ms seconds r db in
    (
      _,
      (_, _),
      acquire-blocked fuel later end s.0 s.1 (cut_end ms seconds account later r db named before)
          enough,
      unpaced,
    )
  where
    unpaced :
        pace (max (to_epoch (to_iso (ms + seconds * 1000))) later) (
          freed later
            (register_rate_limit ms seconds r db).0
            (register_rate_limit ms seconds r db).1)
        < ms + seconds * 1000
    unpaced = ground (
      arith,
      reload_from_db-pacing later (register_rate_limit ms seconds r db).0
          (register_rate_limit ms seconds r db).1,
    )
