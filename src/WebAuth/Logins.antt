-- ===== src/WebAuth/Logins.antt =====
-- `login` and `logout` of webapi/routers/auth.py, and `require_user` of webapi/deps.py. The cookie
-- that the browser holds is the token, named by its hash.
use tools_tele_t_ng.Base.{ℕ, Bool, Option, none, some, String, List, ltb, if◌then◌else◌, ◌&&◌, not}
use tools_tele_t_ng.Models.Clock.{Moment}
use tools_tele_t_ng.Models.Rows.{Key}
use tools_tele_t_ng.RateLimiter.State.{to_iso}
use tools_tele_t_ng.PhoneUtils.{is_empty}
use tools_tele_t_ng.WebAuth.Security.{Security, Policy, retry_after, record_failure, clear}
use tools_tele_t_ng.WebAuth.Sessions
use tools_tele_t_ng.WebAuth.Sessions.{WebSession, purge_expired, verify, revoke}

pub record AuthTables : Type 0 where
  pub sessions : List WebSession
  pub security : List Security

pub data Reply : Type 0 where
  too_many : ℕ → Reply
  wrong : Reply
  welcome : Key → Reply

-- The user name that is given, and what `verify_credentials` makes of it and the password.
pub record Attempt : Type 0 where
  pub username : String
  pub verified : Bool

abbrev pub is_right : Attempt → Bool
is_right a = not (is_empty a.username) && a.verified

-- `issue_token`, with the hash of the new token.
unfoldable pub issue_token : Moment → Key → String → ℕ → List WebSession → List WebSession
unfolding Sessions.create purge_expired
issue_token now hash username max_age rows =
    Sessions.create now hash username max_age (purge_expired now rows)

unfoldable pub login : ℕ → Policy → ℕ → Key → Key → Attempt → AuthTables → Reply × AuthTables
unfolding retry_after record_failure clear issue_token
login ms p max_age hash client a w =
    if ltb 0 (retry_after ms client w.security)
    then (too_many (retry_after ms client w.security), w)
    else if not (is_right a)
    then (wrong, record w { security = record_failure ms client p w.security })
    else (
      welcome hash,
      record {
        sessions = issue_token (to_iso ms) hash a.username max_age w.sessions;
        security = clear client w.security;
      },
    )

-- Without a cookie nothing is revoked.
unfoldable pub logout : Moment → Option Key → List WebSession → List WebSession
unfolding revoke
logout now none rows = rows
logout now (some hash) rows = revoke now hash rows

-- `none` is the answer 401.
unfoldable pub require_user : Moment → Option Key → List WebSession → Option String
unfolding verify
require_user now none rows = none
require_user now (some hash) rows = verify now hash rows
