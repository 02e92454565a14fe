-- ===== src/Telegram/Leases.antt =====
-- The account's lease and cooldown around a management call.
use Prim.Native.Nat.{max}
use tools_tele_t_ng.Base.{
  ℕ, suc, ◌+◌, ◌*◌, ◌≡◌, ◌≢◌, refl, sym, ap, subst, ◌∙◌, ◌≤◌, Bool, true, false, Option, none, some,
  List, find, IsUnique, ltb, if◌then◌else◌, arith,
}
use tools_tele_t_ng.Models.Clock.{Moment}
use tools_tele_t_ng.Database.{Db, AccountLease, lease_key}
use tools_tele_t_ng.JobRepo.AccountLeases.{release_account, is_account_owned_by}
use tools_tele_t_ng.JobRepo.AccountClaims.{account_wins, claim_account-Leases}
use tools_tele_t_ng.JobRepo.AccountReleases.{release_account-unowned}
use tools_tele_t_ng.RateLimiter.State.{
  Limiter, new_limiter, to_iso, to_epoch, reload_from_db, initialize,
}
use tools_tele_t_ng.RateLimiter.Acquire.{acquire}
use tools_tele_t_ng.RateLimiter.Cooldown.{acquire_returns, acquire_kept, cooldown_survives}
use tools_tele_t_ng.Telegram.Operations.{
  Management, claim_management_account, release_management_account, flood, Session, breaks, Reply,
  busy, raised, register, close, claimed_call, authorized_call,
}

close-unowned :
    (now t : ℕ) (m : Management) (session : Session) (db : Db)
    → is_account_owned_by t m.account_key m.worker_id m.operation_id
        (close now false m session db).1
      ≡ false
unfolding close release_management_account
close-unowned now t m (Session.no_client e) db = release_account-unowned now t _ _ _ db
close-unowned now t m (Session.breaks e) db = release_account-unowned now t _ _ _ db
close-unowned now t m Session.unauthorized db = release_account-unowned now t _ _ _ db
close-unowned now t m Session.answered db = release_account-unowned now t _ _ _ db

close-ne-busy :
    (now : ℕ) (cleanup_raises : Bool) (m : Management) (session : Session) (db : Db)
    → (close now cleanup_raises m session db).0 ≢ busy
unfolding close
close-ne-busy now true m session db = ground arith
close-ne-busy now false m session db = ground arith

-- Whether the claim of a call wins, at the moment of the claim.
abbrev pub is_free : ℕ → Management → List AccountLease → Bool
is_free ms m leases =
    account_wins m.worker_id (to_iso ms) m.lease_takeover_grace_seconds
      (find lease_key m.account_key leases)

-- How a call that has claimed or not claimed its account at `ms` ends.
abbrev pub Ends : ℕ → Bool → Management → List AccountLease → Reply × Limiter × Db → Type 0
Ends ms cleanup_raises m leases (reply, r', db') =
    (is_free ms m leases ≡ false → (reply ≡ busy) × (db'.account_worker_state ≡ leases))
    × (is_free ms m leases ≡ true
        → (reply ≢ busy)
          × (cleanup_raises ≡ false
              → (t : Moment)
              → is_account_owned_by t m.account_key m.worker_id m.operation_id db' ≡ false))

claimed_call-Ends :
    (ms later : ℕ) (elsewhere : Db → Db) (cleanup_raises : Bool) (m : Management)
    (session : Session) (r : Limiter) (db : Db)
    → IsUnique lease_key db.account_worker_state
    → Ends ms cleanup_raises m db.account_worker_state
        (claimed_call ms later elsewhere cleanup_raises m session r db)
unfolding claimed_call claim_management_account
claimed_call-Ends ms later elsewhere cleanup_raises m session r db unique =
    let law =
      claim_account-Leases (to_iso ms) m.account_key m.worker_id m.operation_id
        (max 300 m.worker_lease_seconds) m.lease_takeover_grace_seconds db unique in
    (
      λ taken.
          let lost : _ = law.0 ∙ taken in
          rw lost (refl, ap (λ x. x.account_worker_state) (law.2 lost)),
      λ free. rw (law.0 ∙ free) (
        close-ne-busy (to_iso later) cleanup_raises m session _,
        λ e t. rw e (close-unowned (to_iso later) t m session _),
      ),
    )

module _ (fuel now : ℕ) (ends : ℕ → ℕ) (elsewhere : Db → Db) (cleanup_raises : Bool)
    (m : Management) (session : Session) (r : Limiter) (db : Db)
    (unique : IsUnique lease_key db.account_worker_state)
    (enough : (b : ℕ)
      → (reload_from_db now r db).blocked_until ≡ some b
      → b ≤ now + 1000 * fuel) where
  -- A management call ends, and shares the account with the job engine, where the fuel covers the block
  -- of the account: it claims the account at the moment at which `acquire` returns, and is busy exactly
  -- if at that moment the account's lease is held, by anybody, the call's own worker included, and, if
  -- by another, within the takeover grace too; a busy call leaves every lease as it was. One that is
  -- not busy has given the account back when it ends, whatever Telegram or the others did in between,
  -- unless the clean-up of its client raised.
  pub authorized_call-Ends :
      (t : ℕ) × (r' : Limiter) × (db' : Db) × (result : Reply × Limiter × Db) × (acquire
          (suc fuel)
          now
          r
          db
        ≡ some (t, r', db'))
      × (authorized_call (suc fuel) now ends elsewhere cleanup_raises m session r db ≡ some result)
      × (now ≤ t)
      × Ends t cleanup_raises m db.account_worker_state result
  unfolding authorized_call
  authorized_call-Ends =
      let ((t, r', db'), done, paced) = acquire_returns fuel now r db enough in
      let same = (acquire_kept (suc fuel) now t r r' db db' done).0 in
      let law =
        claimed_call-Ends t (ends t) elsewhere cleanup_raises m session r' db'
          (subst (IsUnique lease_key) (sym same) unique) in
      let result = claimed_call t (ends t) elsewhere cleanup_raises m session r' db' in
      (
        t,
        r',
        db',
        result,
        done,
        rw (done, authorized_call) refl,
        paced.0,
        subst (λ leases. Ends t cleanup_raises m leases result) same law,
      )

-- A wait that Telegram names in a management call binds the job engine too: where the call had the
-- account, any limiter of the account that is initialised afterwards is blocked until the end of the
-- wait, cut to the second, if that has not come.
pub flooded_call-blocks :
    (ms later after seconds : ℕ) (elsewhere : Db → Db) (m : Management) (r : Limiter)
    (gap : Option ℕ) (db : Db)
    → IsUnique lease_key db.account_worker_state
    → is_free ms m db.account_worker_state ≡ true
    → r.account_key ≡ some m.account_key
    → let (reply, r', db') =
        claimed_call ms later elsewhere false m (breaks (flood seconds)) r db in
      let end = to_epoch (to_iso (later + seconds * 1000)) in
      (reply ≡ raised)
      × ((initialize after (new_limiter gap (some m.account_key)) db').blocked_until
          ≡ (if ltb after end then some end else none))
unfolding claimed_call claim_management_account register close release_management_account
    release_account initialize reload_from_db
flooded_call-blocks ms later after seconds elsewhere m r gap db unique free named =
    let law =
      claim_account-Leases (to_iso ms) m.account_key m.worker_id m.operation_id
        (max 300 m.worker_lease_seconds) m.lease_takeover_grace_seconds db unique in
    let db' = elsewhere (claim_management_account (to_iso ms) m db).0 in
    rw (law.0 ∙ free)
      (refl, (cooldown_survives later seconds m.account_key after r gap db' named).0)
