-- ===== src/Tests/Operators.antt =====
-- The lock-out and the sessions of the web interface, at concrete tables.
use tools_tele_t_ng.Base.{
  ℕ, ◌+◌, ◌-◌, ◌*◌, ◌/◌, ◌≡◌, refl, false, none, some, List, [], ◌∷◌, leb, if◌then◌else◌, arith,
}
use tools_tele_t_ng.Models.Clock.{Moment, iso_from_offset}
use tools_tele_t_ng.RateLimiter.State.{to_iso, to_epoch}
use tools_tele_t_ng.WebAuth.Security.{Policy, retry_after}
use tools_tele_t_ng.WebAuth.Sessions.{purge_expired}
use tools_tele_t_ng.WebAuth.Sessions
use tools_tele_t_ng.WebAuth.Logins.{
  AuthTables, too_many, wrong, welcome, Attempt, is_right, login, issue_token, logout, require_user,
}
use tools_tele_t_ng.WebAuth.Lockout.{AreWrong, try_all, last_time, lockout}
use tools_tele_t_ng.WebAuth.Lifetime
use tools_tele_t_ng.WebAuth.Lifetime.{SessionCall, run_session_calls, AreOthers, session_lifetime}

abbrev policy : Policy
policy = record { failure_limit = 3; window_seconds = 300; block_seconds = 300 }

abbrev bad_attempt : Attempt
bad_attempt = record { username = "admin"; verified = false }

abbrev later_attempts : List (ℕ × Attempt)
later_attempts = (20500, bad_attempt) ∷ (30500, bad_attempt) ∷ []

abbrev no_tables : AuthTables
no_tables = record { sessions = []; security = [] }

lockout_example :
    let end = to_epoch (to_iso (last_time 10500 later_attempts + 300 * 1000)) in
    let w' = try_all policy 3600 77 5 ((10500, bad_attempt) ∷ later_attempts) no_tables in
    AreWrong policy 3600 77 5 ((10500, bad_attempt) ∷ later_attempts) no_tables
    × ((t : ℕ) (b : Attempt)
        → (login t policy 3600 77 5 b w').0 ≡ (
            if leb (t + 1000) end
            then too_many ((end - t) / 1000)
            else if is_right b
            then welcome 77
            else wrong))
unfolding retry_after
lockout_example =
    lockout policy 3600 77 5 10500 bad_attempt later_attempts no_tables refl refl refl refl
      (omega arith, refl, (omega arith, refl, tt))

-- Another operator logs in and out meanwhile.
abbrev others : List (Moment × SessionCall)
others = (20, Lifetime.issues 78 "other" 60) ∷ (30, Lifetime.logs_out (some 78)) ∷ []

session_lifetime_example :
    let issued = issue_token 10 77 "admin" 3600 [] in
    let during = run_session_calls others issued in
    (require_user 50 (some 77) during
      ≡ (if leb (iso_from_offset 10 3600) 50 then none else some "admin"))
    × ((out : Moment) (ds : List (Moment × SessionCall))
        → AreOthers 77 50 ds (logout out (some 77) during)
        → require_user 50 (some 77) (run_session_calls ds (logout out (some 77) during)) ≡ none)
unfolding issue_token Sessions.create purge_expired
session_lifetime_example =
    session_lifetime 10 50 77 "admin" 3600 [] others tt refl
      (omega arith, (λ e. ground arith, refl), (omega arith, (λ e. ground arith), tt))
