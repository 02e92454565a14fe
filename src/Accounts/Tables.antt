-- ===== src/Accounts/Tables.antt =====
-- The tables and files that the account manager works on.
use text.Mathlib.Text.{◌==◌ as ◌≈◌}
use tools_tele_t_ng.Base.{Bool, Option, String, List}
use tools_tele_t_ng.Models.Clock.{Moment}
use tools_tele_t_ng.Models.Rows.{Key}
use tools_tele_t_ng.Database.{Db}

-- A row of `telegram_accounts`.
pub record Account : Type 0 where
  pub id : Key
  pub label : String
  pub phone : String
  pub is_default : Bool
  pub created_at : Moment
  pub updated_at : Moment
  pub last_login_at : Option Moment

pub data LoginState : Type 0 where
  wait_code wait_2fa completed failed : LoginState

-- A row of `telegram_login_sessions`; the column of the code's hash is read and written through one
-- secret box, and stands here for what it holds.
pub record Login : Type 0 where
  pub session_id : Key
  pub account_id : Key
  pub state : LoginState
  pub phone_code_hash : Option String
  pub error : Option String
  pub created_at : Moment
  pub updated_at : Moment
  pub expires_at : Moment

-- A row of `telegram_sessions`, through the secret box.
pub record StoredSession : Type 0 where
  pub account_id : Key
  pub session : String
  pub updated_at : Moment

-- An entry of `_status_cache`.
pub record Cached : Type 0 where
  pub account_id : Key
  pub at : Moment
  pub authorized : Bool

-- `legacy_files` are the phones with a `.session` file.
pub record Web : Type 0 where
  pub engine : Db
  pub accounts : List Account
  pub sessions : List StoredSession
  pub logins : List Login
  pub status_cache : List Cached
  pub legacy_files : List String

abbrev pub account_id : Account → Key
account_id a = a.id

abbrev pub login_id : Login → Key
login_id l = l.session_id

abbrev pub session_account : StoredSession → Key
session_account s = s.account_id

abbrev pub has_phone : String → Account → Bool
has_phone phone a = a.phone ≈ phone

abbrev pub is_default_row : Account → Bool
is_default_row a = a.is_default
