-- ===== src/Telegram/Operations.antt =====
-- The management calls: `TelegramService._authorized_call_inner`, with the claim and the release that
-- `AccountManager._new_service` gives it. The asyncio lock keeps two calls of one account apart.
use tools_tele_t_ng.Base.{ℕ, Bool, true, false, Option, none, some, if◌then◌else◌}
use Prim.Native.Nat.{max}
use tools_tele_t_ng.Models.Clock.{Moment}
use tools_tele_t_ng.Models.Rows.{Key}
use tools_tele_t_ng.Database.{Db}
use tools_tele_t_ng.JobRepo.AccountLeases.{claim_account, release_account}
use tools_tele_t_ng.RateLimiter.State.{Limiter, to_iso, register_success, register_rate_limit}
use tools_tele_t_ng.RateLimiter.Acquire.{acquire}

-- The values that the two closures of `_new_service` keep.
pub record Management : Type 0 where
  pub account_key : Key
  pub worker_id : Key
  pub operation_id : Key
  pub worker_lease_seconds : ℕ
  pub lease_takeover_grace_seconds : ℕ

unfoldable pub claim_management_account : Moment → Management → Db → Db × Bool
claim_management_account now m =
    claim_account now m.account_key m.worker_id m.operation_id (max 300 m.worker_lease_seconds)
      m.lease_takeover_grace_seconds

unfoldable pub release_management_account : Moment → Management → Db → Db
release_management_account now m =
    release_account now m.account_key m.worker_id (some m.operation_id)

-- An exception of the library: a wait of so many seconds (0 if it names none), or another.
pub data Failure : Type 0 where
  flood : ℕ → Failure
  other : Failure

-- What Telegram does behind the claim: the client cannot be made, or something raises while it is
-- there, or the session is not authorised, or the callback returns.
pub data Session : Type 0 where
  no_client : Failure → Session
  breaks : Failure → Session
  unauthorized answered : Session

-- How a call ends, and that the clean-up of its client was in vain.
pub data Reply : Type 0 where
  busy raised : Reply
  result : Reply

-- The two handlers behind the `try`, and `register_success`.
unfoldable pub register : ℕ → Session → Limiter → Db → Limiter × Db
register ms (no_client (flood seconds)) r db = register_rate_limit ms seconds r db
register ms (no_client other) r db = (r, db)
register ms (breaks (flood seconds)) r db = register_rate_limit ms seconds r db
register ms (breaks other) r db = (r, db)
register ms unauthorized r db = (r, db)
register ms answered r db = (register_success ms r, db)

abbrev pub has_client : Session → Bool
has_client (no_client e) = false
has_client _ = true

abbrev pub reply_of : Session → Reply
reply_of answered = result
reply_of _ = raised

-- The `finally`: the session is saved and the client closed first, and an exception there leaves the
-- rest undone.
unfoldable pub close : Moment → Bool → Management → Session → Db → Reply × Db
unfolding release_management_account
close now cleanup_raises m session db =
    if (if has_client session then cleanup_raises else false)
    then (raised, db)
    else (reply_of session, release_management_account now m db)

-- Behind `acquire`, from the claim at `ms` to the end at `later`. `elsewhere` is what others do to
-- the tables while the call waits for Telegram.
unfoldable pub claimed_call :
    ℕ → ℕ → (Db → Db) → Bool → Management → Session → Limiter → Db → Reply × Limiter × Db
unfolding claim_management_account register close
claimed_call ms later elsewhere cleanup_raises m session r db =
    let (db', won) = claim_management_account (to_iso ms) m db in
    let (r', db'') = register later session r (elsewhere db') in
    let (reply, db''') = close (to_iso later) cleanup_raises m session db'' in
    if won then (reply, r', db''') else (busy, r, db')

-- `none`: the fuel of `acquire` has run out. The call lasts `length` milliseconds.
unfoldable pub authorized_call :
    ℕ
    → ℕ
    → (ℕ → ℕ)
    → (Db → Db)
    → Bool
    → Management
    → Session
    → Limiter
    → Db
    → Option (Reply × Limiter × Db)
unfolding claimed_call
authorized_call fuel now ends elsewhere cleanup_raises m session r db =
    elim (acquire fuel now r db) [
      | none ↦ none
      | some (ms, r', db') ↦
          some (claimed_call ms (ends ms) elsewhere cleanup_raises m session r' db')
    ]
