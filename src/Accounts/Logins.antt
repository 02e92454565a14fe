-- ===== src/Accounts/Logins.antt =====
-- `TelegramLoginRepository` and the `telegram_sessions` side of `SqlTelegramSessionStore`. The
-- identifier of a new login is a fresh UUID.
use tools_tele_t_ng.Base.{
  ℕ, Bool, true, false, not, ◌&&◌, Option, none, some, String, List, [], ◌∷◌, ◌++◌, find,
  select_where, update_where, without, is_null, ltb, ◌==◌, if◌then◌else◌,
}
use tools_tele_t_ng.Models.Clock.{Moment, iso_from_offset}
use tools_tele_t_ng.Models.Rows.{Key}
use tools_tele_t_ng.Accounts.Tables.{
  LoginState, Login, StoredSession, Web, login_id, session_account,
}
use tools_tele_t_ng.Accounts.Repository.{get_by_phone}

-- Python's truth of a text that may be missing.
abbrev pub non_empty : Option String → Option String
non_empty none = none
non_empty (some String.[]) = none
non_empty (some text) = some text

abbrev pub new_login : Moment → Key → Key → LoginState → Option String → ℕ → Login
new_login now session_id account state phone_code_hash ttl_seconds = record {
  session_id = session_id;
  account_id = account;
  state = state;
  phone_code_hash = non_empty phone_code_hash;
  error = none;
  created_at = now;
  updated_at = now;
  expires_at = iso_from_offset now ttl_seconds;
}

unfoldable pub create :
    Moment → Key → Key → LoginState → Option String → ℕ → List Login → List Login
create now session_id account state phone_code_hash ttl_seconds logins =
    logins ++ new_login now session_id account state phone_code_hash ttl_seconds ∷ []

unfoldable pub get : Key → List Login → Option Login
get session_id logins = find login_id session_id logins

abbrev pub new_hash : Option String → Option String → Option String
new_hash none old = old
new_hash (some given) old = some given

abbrev pub rewritten : Moment → LoginState → Option String → Option String → Login → Login
rewritten now state error phone_code_hash l = record l {
  state = state;
  error = error;
  phone_code_hash = new_hash phone_code_hash l.phone_code_hash;
  updated_at = now;
}

unfoldable pub update :
    Moment → Key → LoginState → Option String → Option String → List Login → List Login
update now session_id state error phone_code_hash =
    update_where (λ l. l.session_id == session_id) (rewritten now state error phone_code_hash)

unfoldable pub delete : Key → List Login → List Login
delete session_id logins = without login_id session_id logins

-- `state IN ('WAIT_CODE','WAIT_2FA')`
abbrev pub is_waiting : LoginState → Bool
is_waiting LoginState.wait_code = true
is_waiting LoginState.wait_2fa = true
is_waiting _ = false

abbrev pub is_active_login : Moment → Key → Login → Bool
is_active_login now account l =
    (l.account_id == account) && (is_waiting l.state && ltb now l.expires_at)

-- `ORDER BY created_at DESC LIMIT 1`
abbrev pub newest : List Login → Option Login
newest [] = none
newest (l ∷ rest) = elim (newest rest) [
  | none ↦ some l
  | some k ↦ if ltb l.created_at k.created_at then some k else some l
]

unfoldable pub active_for_account : Moment → Key → List Login → Option Login
active_for_account now account logins = newest (select_where (is_active_login now account) logins)

-- `INSERT … ON CONFLICT(account_id) DO UPDATE`
unfoldable pub upsert_session : Moment → Key → String → List StoredSession → List StoredSession
upsert_session now account text rows = elim (find session_account account rows) [
  | none ↦ rows ++ record { account_id = account; session = text; updated_at = now } ∷ []
  | some _ ↦
      update_where (λ s. s.account_id == account)
        (λ s. record s { session = text; updated_at = now }) rows
]

-- `SqlTelegramSessionStore.has`, `load`, `save` and `delete`; `none` is the `ValueError` of a phone
-- that no account has.
unfoldable pub load_session : String → Web → Option (Option String)
unfolding get_by_phone
load_session phone w = elim (get_by_phone phone w.accounts) [
  | none ↦ none
  | some a ↦
      some (elim (find session_account a.id w.sessions) [ none ↦ none | some s ↦ some s.session ])
]

unfoldable pub has_session : String → Web → Bool
unfolding load_session
has_session phone w = elim (load_session phone w) [ none ↦ false | some text ↦ not (is_null text) ]

unfoldable pub save_session : Moment → String → String → Web → Option Web
unfolding get_by_phone upsert_session
save_session now phone text w = elim (get_by_phone phone w.accounts) [
  | none ↦ none
  | some a ↦ some (record w { sessions = upsert_session now a.id text w.sessions })
]

unfoldable pub delete_session : String → Web → Option Web
unfolding get_by_phone
delete_session phone w = elim (get_by_phone phone w.accounts) [
  | none ↦ none
  | some a ↦ some (record w { sessions = without session_account a.id w.sessions })
]
