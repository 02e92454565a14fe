-- ===== src/Accounts/Starting.antt =====
-- A login that is started leaves the logins well kept.
use tools_tele_t_ng.Base.{
  ◌≡◌, refl, inl, inr, Bool, true, Option, none, some, String, List, find, is_null, IsUnique,
  update_where-IsUnique, append-IsUnique, find-append, ◌==◌, arith, Option-cases, Bool-cases,
}
use tools_tele_t_ng.Models.Clock.{Moment}
use tools_tele_t_ng.Models.Rows.{Key}
use tools_tele_t_ng.Accounts.Tables.{Account, LoginState, Login, Web, login_id}
use tools_tele_t_ng.Accounts.Repository
use tools_tele_t_ng.Accounts.Logins
use tools_tele_t_ng.Accounts.Logins.{
  is_waiting, active_for_account, new_login, rewritten, save_session,
}
use tools_tele_t_ng.Accounts.Manager.{
  Env, account_in_use, chosen_account, session_backend, logged_in, persist_session, uses_sql,
  CodeAnswer, already_authorized, code_sent, code_raises, code_answer, saved_or, finish_start,
  start_login,
}
use tools_tele_t_ng.Accounts.Active.{
  AtMostOne, AtMostOne-create, AtMostOne-update, active_for_account_none,
}

-- A login that Telegram authorises leaves the other logins alone.
pub logged_in-logins :
    (now : Moment) (a : Account) (w : Web) → (logged_in now a w).logins ≡ w.logins
unfolding session_backend
logged_in-logins now a w = ground arith

save_session-logins :
    (now : Moment) (phone text : String) (w w' : Web)
    → save_session now phone text w ≡ some w'
    → w'.logins ≡ w.logins
unfolding save_session
save_session-logins now phone text w w' e =
    elim (Option-cases (Repository.get_by_phone phone w.accounts)) [
      | inl gone ↦ ground arith
      | inr (a, here) ↦ ground arith
    ]

pub persist_session-logins :
    (now : Moment) (to_sql : Bool) (phone : String) (saved : Option String) (w w' : Web)
    → persist_session now to_sql phone saved w ≡ some w'
    → w'.logins ≡ w.logins
unfolding persist_session
persist_session-logins now to_sql phone saved w w' e =
    elim (Option-cases (Logins.non_empty saved)) [
      | inl nothing ↦ ground arith
      | inr (text, there) ↦ elim (Bool-cases to_sql) [
        | inl yes_sql ↦ ground (arith, save_session-logins now phone text w w')
        | inr no_sql ↦ ground arith
      ]
    ]

-- The logins are well kept: distinct, and at most one of an account waits and has not expired.
pub record IsKept (now : Moment) (logins : List Login) : Type 0 where
  pub keyed : IsUnique login_id logins
  pub one_waits : AtMostOne now logins

pub update-IsKept :
    (now : Moment) (session_id : Key) (state : LoginState) (error : Option String)
    (logins : List Login) (l : Login)
    → find login_id session_id logins ≡ some l
    → (is_waiting state ≡ true → is_waiting l.state ≡ true)
    → IsKept now logins
    → IsKept now (Logins.update now session_id state error none logins)
unfolding Logins.update
update-IsKept now session_id state error logins l here waited k = record {
  keyed =
      update_where-IsUnique login_id (λ l. l.session_id == session_id)
        (rewritten now state error none) logins (λ l. refl) k.keyed;
  one_waits =
      AtMostOne-update now session_id state error none logins l k.keyed here waited k.one_waits;
}

created-IsKept :
    (now : Moment) (session_id account : Key) (state : LoginState) (hash : Option String)
    (logins : List Login)
    → find login_id session_id logins ≡ none
    → is_null (active_for_account now account logins) ≡ true
    → IsKept now logins
    → IsKept now (Logins.create now session_id account state hash 600 logins)
unfolding Logins.create
created-IsKept now session_id account state hash logins fresh free k = record {
  keyed =
      append-IsUnique login_id logins (new_login now session_id account state hash 600) fresh
        k.keyed;
  one_waits =
      AtMostOne-create now session_id account state hash 600 logins
        (active_for_account_none now account logins free) k.one_waits;
}

created-find :
    (now : Moment) (session_id account : Key) (state : LoginState) (hash : Option String)
    (logins : List Login)
    → find login_id session_id logins ≡ none
    → find login_id session_id (Logins.create now session_id account state hash 600 logins)
      ≡ some (new_login now session_id account state hash 600)
unfolding Logins.create
created-find now session_id account state hash logins fresh = ground (
  arith,
  find-append login_id session_id logins (new_login now session_id account state hash 600),
)

finish_start-IsKept :
    (now : Moment) (a : Account) (session_id : Key) (answer : CodeAnswer) (w : Web)
    → find login_id session_id w.logins ≡ none
    → is_null (active_for_account now a.id w.logins) ≡ true
    → IsKept now w.logins
    → IsKept now (finish_start now a session_id answer w).1.logins
unfolding finish_start
finish_start-IsKept now a session_id already_authorized w fresh free k =
    rw (logged_in-logins now a _)
      (created-IsKept now session_id a.id LoginState.completed none w.logins fresh free k)
finish_start-IsKept now a session_id (code_sent hash) w fresh free k =
    created-IsKept now session_id a.id LoginState.wait_code hash w.logins fresh free k
finish_start-IsKept now a session_id (code_raises message) w fresh free k =
    update-IsKept now session_id LoginState.failed (some message) _ _
      (created-find now session_id a.id LoginState.failed none w.logins fresh) (λ e. cc)
      (created-IsKept now session_id a.id LoginState.failed none w.logins fresh free k)

saved_or-logins :
    (now : Moment) (to_sql : Bool) (phone : String) (saved : Option String) (w : Web)
    → (saved_or (persist_session now to_sql phone saved w) w).logins ≡ w.logins
saved_or-logins now to_sql phone saved w =
    elim (Option-cases (persist_session now to_sql phone saved w)) [
      | inl e ↦ rw (e, saved_or)
      | inr (w', e) ↦ rw (e, saved_or) (persist_session-logins now to_sql phone saved w w' e)
    ]

abbrev pub alone : Web → Web
alone w = w

pub start_login-IsKept :
    (now : Moment) (env : Env) (id : Option Key) (force_sql : Bool) (session_id : Key)
    (answer : CodeAnswer) (saved : Option String) (w : Web)
    → find login_id session_id w.logins ≡ none
    → IsKept now w.logins
    → IsKept now (start_login now now env id force_sql session_id answer saved alone w).1.logins
unfolding start_login
start_login-IsKept now env id force_sql session_id answer saved w fresh k =
    elim (Option-cases (chosen_account id w)) [
      | inl gone ↦ rw (gone, start_login) k
      | inr (a, here) ↦ elim (Bool-cases (account_in_use now env a.phone w)) [
        | inl used ↦ rw (here, start_login) (rw used k)
        | inr unused ↦ elim (Bool-cases (is_null (active_for_account now a.id w.logins))) [
          | inr waits ↦ rw (here, start_login) (rw unused (rw waits k))
          | inl free ↦ elim (Bool-cases env.has_credentials) [
            | inr bare ↦ rw (here, start_login) (rw unused (rw free (rw bare k)))
            | inl ready ↦
                let to_sql = uses_sql force_sql a.phone w in
                let kept_web = persist_session now to_sql a.phone saved w in
                let same = saved_or-logins now to_sql a.phone saved w in
                rw (here, start_login)
                  (rw unused (
                    rw free (
                      rw ready (
                        finish_start-IsKept now a session_id (code_answer kept_web answer)
                          (saved_or kept_web w) (rw same fresh) (rw same free) (rw same k)))))
          ]
        ]
      ]
    ]
