-- ===== src/Accounts/Manager.antt =====
-- `AccountManager`: the choice of an account, logins by code, logout and removal. A method that waits
-- for Telegram is cut at its await: `elsewhere` is what other requests do meanwhile, and Telegram's
-- answer is an argument. A legacy file that is to be removed is removed.
use text.Mathlib.Text.{◌==◌ as ◌≈◌}
use tools_tele_t_ng.Base.{
  Bool, true, false, not, ◌||◌, Option, none, some, String, List, [], ◌∷◌, select_where, is_null,
  ◌==◌, if◌then◌else◌,
}
use tools_tele_t_ng.Models.Clock.{Moment}
use tools_tele_t_ng.Models.Rows.{Key}
use tools_tele_t_ng.JobRepo.Jobs.{has_unfinished_jobs_for_account}
use tools_tele_t_ng.JobRepo.AccountLeases.{is_account_owned}
use tools_tele_t_ng.Accounts.Tables.{Account, LoginState, Login, Web}
use tools_tele_t_ng.Accounts.Repository
use tools_tele_t_ng.Accounts.Logins
use tools_tele_t_ng.Accounts.Logins.{has_session, save_session, active_for_account}

-- The configuration; `account_key` is the hash of a phone, and `phone_number` the number by which a
-- phone stands in `jobs`.
pub record Env : Type 0 where
  pub account_key : String → Key
  pub phone_number : String → Key
  pub has_credentials : Bool
  pub api_phone_number : Option String

pub data Fault : Type 0 where
  value_error already_busy login_not_found : Fault

unfoldable pub account_in_use : Moment → Env → String → Web → Bool
account_in_use now env phone w = is_account_owned now (env.account_key phone) w.engine

abbrev pub has_unfinished_jobs : Env → String → Web → Bool
has_unfinished_jobs env phone w = has_unfinished_jobs_for_account (env.phone_number phone) w.engine

abbrev pub has_file : String → List String → Bool
has_file phone [] = false
has_file phone (p ∷ rest) = (p ≈ phone) || has_file phone rest

-- `_session_backend`
pub data Backend : Type 0 where
  sql legacy_file no_backend : Backend

unfoldable pub session_backend : String → Web → Backend
unfolding has_session
session_backend phone w =
    if has_session phone w
    then sql
    else if has_file phone w.legacy_files
    then legacy_file
    else no_backend

abbrev pub remove_legacy_session_files : String → Web → Web
remove_legacy_session_files phone w = record w {
  legacy_files = select_where (λ p. not (p ≈ phone)) w.legacy_files;
}

-- `use_sql` of `_new_service`.
abbrev pub uses_sql : Bool → String → Web → Bool
uses_sql force_sql phone w =
    force_sql || (has_session phone w || not (has_file phone w.legacy_files))

unfoldable pub default_phone : Env → Web → Option String
default_phone env w = elim (Repository.get_default w.accounts) [
  | none ↦ env.api_phone_number
  | some a ↦ some a.phone
]

-- `get(account_id) if account_id else get_default()`
unfoldable pub chosen_account : Option Key → Web → Option Account
chosen_account none w = Repository.get_default w.accounts
chosen_account (some id) w = Repository.get id w.accounts

-- `none`: a `ValueError`; `some none`: no account, and none was asked for.
unfoldable pub phone_for : Option Key → Web → Option (Option String)
unfolding chosen_account
phone_for none w = elim (chosen_account none w) [ none ↦ some none | some a ↦ some (some a.phone) ]
phone_for (some id) w = elim (chosen_account (some id) w) [
  | none ↦ none
  | some a ↦ some (some a.phone)
]

abbrev pub cache_status : Moment → Key → Bool → Web → Web
cache_status now id authorized w = record w {
  status_cache =
      record { account_id = id; at = now; authorized = authorized }
      ∷ select_where (λ c. not (c.account_id == id)) w.status_cache;
}

-- What follows a login that Telegram has authorised.
abbrev pub logged_in : Moment → Account → Web → Web
logged_in now a w =
    let marked = record w { accounts = Repository.mark_logged_in now a.id w.accounts } in
    cache_status now a.id true (elim (session_backend a.phone marked) [
      | sql ↦ remove_legacy_session_files a.phone marked
      | _ ↦ marked
    ])

-- The service saves the client's session behind each request, if it goes to the table and there is
-- one; `none` is the `ValueError` of a phone that no account has any more.
unfoldable pub persist_session : Moment → Bool → String → Option String → Web → Option Web
persist_session now to_sql phone saved w = elim (Logins.non_empty saved) [
  | none ↦ some w
  | some text ↦ if to_sql then save_session now phone text w else some w
]

-- `request_login_code`: the session is authorised already, or a code was sent, or an exception with
-- the message that is shown for it.
pub data CodeAnswer : Type 0 where
  already_authorized : CodeAnswer
  code_sent : Option String → CodeAnswer
  code_raises : String → CodeAnswer

pub data Reply : Type 0 where
  refused : Fault → Reply
  shows : Option Login → Reply

abbrev pub with_logins : (List Login → List Login) → Web → Web
with_logins f w = record w { logins = f w.logins }

abbrev pub shown : Key → Web → Reply × Web
shown session_id w = (shows (Logins.get session_id w.logins), w)

abbrev pub new_login : Moment → Key → Account → LoginState → Option String → Web → Web
new_login now session_id a state phone_code_hash =
    with_logins (Logins.create now session_id a.id state phone_code_hash 600)

abbrev pub set_login : Moment → Key → LoginState → Option String → Web → Web
set_login now session_id state error = with_logins (Logins.update now session_id state error none)

-- Behind the await of `start_login`.
unfoldable pub finish_start : Moment → Account → Key → CodeAnswer → Web → Reply × Web
finish_start now a session_id already_authorized w =
    shown session_id (logged_in now a (new_login now session_id a LoginState.completed none w))
finish_start now a session_id (code_sent phone_code_hash) w =
    shown session_id (new_login now session_id a LoginState.wait_code phone_code_hash w)
finish_start now a session_id (code_raises message) w = shown session_id (
    set_login now session_id LoginState.failed (some message)
      (new_login now session_id a LoginState.failed none w))

abbrev pub saved_or : Option Web → Web → Web
saved_or none w = w
saved_or (some saved) w = saved

-- A session that cannot be saved is one more exception, with its own message.
abbrev pub code_answer : Option Web → CodeAnswer → CodeAnswer
code_answer none answer = code_raises "Đăng nhập Telegram thất bại (ValueError)."
code_answer (some w) answer = answer

unfoldable pub start_login :
    Moment
    → Moment
    → Env
    → Option Key
    → Bool
    → Key
    → CodeAnswer
    → Option String
    → (Web → Web)
    → Web
    → Reply × Web
unfolding chosen_account account_in_use finish_start persist_session
start_login now later env id force_sql session_id answer saved elsewhere w =
    elim (chosen_account id w) [
      | none ↦ (refused value_error, w)
      | some a ↦
          if account_in_use now env a.phone w
          then (refused already_busy, w)
          else if not (is_null (active_for_account now a.id w.logins))
          then (refused already_busy, w)
          else if not env.has_credentials
          then (refused value_error, w)
          else let w' = elsewhere w in
            let kept = persist_session later (uses_sql force_sql a.phone w) a.phone saved w' in
            finish_start later a session_id (code_answer kept answer) (saved_or kept w')
    ]
