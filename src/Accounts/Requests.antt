-- ===== src/Accounts/Requests.antt =====
-- `AccountManager`: the code and the password of a login, its cancellation, and the requests that add
-- an account, log it out or remove it.
use tools_tele_t_ng.Base.{
  Bool, true, false, not, Option, none, some, String, is_null, select_where, ◌==◌, if◌then◌else◌,
}
use tools_tele_t_ng.Models.Clock.{Moment}
use tools_tele_t_ng.Models.Rows.{Key}
use tools_tele_t_ng.Accounts.Tables.{Account, LoginState, Web}
use tools_tele_t_ng.Accounts.Repository
use tools_tele_t_ng.Accounts.Logins
use tools_tele_t_ng.Accounts.Logins.{delete_session, active_for_account}
use tools_tele_t_ng.Accounts.Manager.{
  Env, Fault, value_error, already_busy, login_not_found, account_in_use, has_unfinished_jobs,
  uses_sql, chosen_account, cache_status, logged_in, persist_session, Reply, refused, shown,
  set_login, remove_legacy_session_files,
}

-- `sign_in_code` and `sign_in_password`: a password is needed, or the session is authorised or not,
-- or an exception with the message that is shown for it.
pub data SignIn : Type 0 where
  needs_password : SignIn
  signed_in : Bool → SignIn
  sign_in_raises : String → SignIn

-- A session that cannot be saved raises a `ValueError`.
pub data Kept : Type 0 where
  kept : SignIn → Web → Kept
  not_kept : Kept

abbrev pub keep : Option Web → SignIn → Kept
keep none answer = not_kept
keep (some w) answer = kept answer w

abbrev pub complete : Moment → Key → Account → Web → Web
complete now session_id a w = logged_in now a (set_login now session_id LoginState.completed none w)

-- Behind the await of `submit_code`, by the state that the row had before it.
unfoldable pub finish_code : Moment → Key → Account → LoginState → Kept → Web → Reply × Web
finish_code now session_id a state not_kept w = (refused value_error, w)
finish_code now session_id a state (kept (sign_in_raises message) w') w =
    shown session_id (set_login now session_id state (some message) w')
finish_code now session_id a state (kept (signed_in false) w') w = shown session_id w'
finish_code now session_id a state (kept (signed_in true) w') w =
    shown session_id (complete now session_id a w')
finish_code now session_id a LoginState.wait_code (kept needs_password w') w =
    shown session_id (set_login now session_id LoginState.wait_2fa none w')
finish_code now session_id a state (kept needs_password w') w = shown session_id w'

-- What the request brings, with the blanks of the code cut.
pub record Submission : Type 0 where
  pub code : String
  pub password : String

abbrev pub is_blank : String → Bool
is_blank String.[] = true
is_blank _ = false

-- The text that the row's state asks for is empty.
abbrev pub lacks_input : LoginState → Submission → Bool
lacks_input LoginState.wait_code s = is_blank s.code
lacks_input LoginState.wait_2fa s = is_blank s.password
lacks_input _ s = false

unfoldable pub submit_code :
    Moment → Env → Key → Submission → SignIn → Option String → (Web → Web) → Web → Reply × Web
unfolding finish_code persist_session
submit_code later env session_id s answer saved elsewhere w =
    elim (Logins.get session_id w.logins) [
      | none ↦ (refused login_not_found, w)
      | some row ↦ elim (Repository.get row.account_id w.accounts) [
        | none ↦ (refused login_not_found, w)
        | some a ↦
            if not env.has_credentials
            then (refused value_error, w)
            else if lacks_input row.state s
            then (refused value_error, w)
            else if not (Logins.is_waiting row.state)
            then shown session_id w
            else let w' = elsewhere w in
              finish_code later session_id a row.state
                (keep (persist_session later (uses_sql false a.phone w) a.phone saved w') answer) w'
      ]
    ]

unfoldable pub cancel_login : Moment → Key → Web → Option Web
cancel_login now session_id w = elim (Logins.get session_id w.logins) [
  | none ↦ none
  | some _ ↦ some (set_login now session_id LoginState.failed (some "Đăng nhập đã bị hủy.") w)
]

-- `none`: the phone is not valid (a `ValueError`). `normalized` is what `_normalize_phone` makes of
-- the phone, `id` a fresh identifier.
unfoldable pub add_account :
    Moment → Key → Option String → Option String → Web → Option (Option Account × Web)
add_account now id none label w = none
add_account now id (some phone) label w = elim (Repository.get_by_phone phone w.accounts) [
  | some existing ↦ some (some existing, w)
  | none ↦ elim (Repository.create now id phone label w.accounts) [
    | none ↦ none
    | some accounts ↦ some (Repository.get id accounts, record w { accounts = accounts })
  ]
]

pub data Outcome : Type 0 where
  denied : Fault → Outcome
  done : Outcome

-- The three guards that `logout` and `remove_account` share.
abbrev pub is_attended : Moment → Env → Account → Web → Bool
is_attended now env a w =
    if account_in_use now env a.phone w
    then true
    else if has_unfinished_jobs env a.phone w
    then true
    else not (is_null (active_for_account now a.id w.logins))

abbrev pub erase_session : String → Web → Web
erase_session phone w = elim (delete_session phone w) [ none ↦ w | some w' ↦ w' ]

unfoldable pub logout : Moment → Env → Option Key → Web → Outcome × Web
unfolding chosen_account account_in_use
logout now env id w = elim (chosen_account id w) [
  | none ↦ (denied value_error, w)
  | some a ↦ if is_attended now env a w then (denied already_busy, w) else (
    done,
    cache_status now a.id false (remove_legacy_session_files a.phone (erase_session a.phone w)),
  )
]

abbrev pub forget_status : Key → Web → Web
forget_status id w = record w {
  status_cache = select_where (λ c. not (c.account_id == id)) w.status_cache;
}

unfoldable pub remove_account : Moment → Env → Key → Web → Outcome × Web
unfolding account_in_use
remove_account now env id w = elim (Repository.get id w.accounts) [
  | none ↦ (done, w)
  | some a ↦
      if is_attended now env a w
      then (denied already_busy, w)
      else let erased = erase_session a.phone w in
        let removed = record erased { accounts = Repository.delete now id erased.accounts } in
        (done, forget_status id (remove_legacy_session_files a.phone removed))
]

unfoldable pub set_default : Moment → Key → Web → Option Web
set_default now id w = elim (Repository.set_default now id w.accounts) [
  | none ↦ none
  | some accounts ↦ some (record w { accounts = accounts })
]
