-- ===== src/Tests/Lookups.antt =====
-- Lookups and management calls, at concrete answers.
use tools_tele_t_ng.Base.{
  ℕ, ◌+◌, ◌*◌, ◌≡◌, refl, ◌≤◌, true, false, none, some, [], ◌∷◌, ltb, if◌then◌else◌, arith,
}
use tools_tele_t_ng.Database.{Db}
use tools_tele_t_ng.RateLimiter.State.{
  Limiter, new_limiter, to_iso, to_epoch, initialize, reload_from_db,
}
use tools_tele_t_ng.Telegram.Classify.{
  UserStatus, TelegramUser, by_client_id, ImportAnswer, imported, check_phone,
}
use tools_tele_t_ng.Telegram.Lookups.{IsClassified, check_phone-IsClassified}
use tools_tele_t_ng.Telegram.Operations.{
  Management, flood, Session, breaks, Reply, raised, claimed_call, authorized_call,
}
use tools_tele_t_ng.Telegram.Leases.{Ends, authorized_call-Ends, flooded_call-blocks}
use tools_tele_t_ng.Tests.Data.{
  held_job, free_job, waiting, tables, without_account, one_account, limiter,
}
use tools_tele_t_ng.RateLimiter.Acquire.{acquire}

abbrev user : TelegramUser
user = record {
  id = some 99;
  username = some "a";
  first_name = none;
  last_name = none;
  status = UserStatus.recently;
}

-- One user, and another contact that is to be retried.
abbrev one_user : ImportAnswer
one_user = imported (record { users = user ∷ []; retry_contacts = by_client_id 4 ∷ [] })

check_phone-IsClassified_example :
    let r = check_phone true one_user "+84912345678" 3 (some "timeout") in
    IsClassified true one_user 3 "+84912345678" r
    × (record r { cleanup_error = none } ≡ check_phone true one_user "+84912345678" 3 none)
check_phone-IsClassified_example =
    check_phone-IsClassified true one_user 3 "+84912345678" (some "timeout")

found_user :
    (check_phone true one_user "+84912345678" 3 (some "timeout")).telegram_user_id ≡ some 99
unfolding check_phone
found_user = refl

abbrev management : Management
management = record {
  account_key = 5;
  worker_id = 12;
  operation_id = 8;
  worker_lease_seconds = 60;
  lease_takeover_grace_seconds = 2;
}

-- The account is held by the worker 11 until the second 100.
authorized_call-Ends_example :
    let db = tables held_job waiting in
    (t : ℕ) × (r' : Limiter) × (db' : Db) × (result : Reply × Limiter × Db) × (acquire 2 1000
        limiter db
      ≡ some (t, r', db'))
    × (authorized_call 2 1000 (λ t. t + 500) (λ x. x) false management Session.answered limiter db
        ≡ some result)
    × (1000 ≤ t)
    × Ends t false management db.account_worker_state result
unfolding reload_from_db
authorized_call-Ends_example =
    authorized_call-Ends 1 1000 (λ t. t + 500) (λ x. x) false management Session.answered limiter
      (tables held_job waiting) one_account (λ b e. ground arith)

flooded_call-blocks_example :
    let (reply, r', db') =
      claimed_call 1000 1500
        (λ x. x)
        false
        management
        (breaks (flood 30))
        limiter
        (without_account free_job waiting) in
    let end = to_epoch (to_iso (1500 + 30 * 1000)) in
    (reply ≡ raised)
    × ((initialize 2000 (new_limiter none (some management.account_key)) db').blocked_until
        ≡ (if ltb 2000 end then some end else none))
flooded_call-blocks_example =
    flooded_call-blocks 1000 1500 2000 30 (λ x. x) management limiter none
      (without_account free_job waiting) tt refl refl
