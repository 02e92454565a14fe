-- ===== src/Accounts/Overlaps.antt =====
-- Two requests about one account that overlap: what each has read before its await does not hold
-- behind it.
use tools_tele_t_ng.Base.{
  ◌+◌, ◌≡◌, refl, ◌≤◌, ◌<◌, Bool, true, false, Option, none, some, String, [], ◌∷◌, ◌++◌, find,
  is_null, find-update_id, count_where-append, arith,
}
use tools_tele_t_ng.Models.Clock.{Moment}
use tools_tele_t_ng.Models.Rows.{Key}
use tools_tele_t_ng.Accounts.Tables.{Account, LoginState, Login, Web, login_id}
use tools_tele_t_ng.Accounts.Repository
use tools_tele_t_ng.Accounts.Logins
use tools_tele_t_ng.Accounts.Logins.{
  is_waiting, is_active_login, active_for_account, new_login, rewritten,
}
use tools_tele_t_ng.Accounts.Manager.{
  Env, account_in_use, chosen_account, persist_session, code_sent, finish_start, start_login,
}
use tools_tele_t_ng.Accounts.Requests.{
  SignIn, signed_in, sign_in_raises, kept, Submission, lacks_input, finish_code, submit_code,
}
use tools_tele_t_ng.Accounts.Active.{active_count, active_count_later, active_for_account_none}
use tools_tele_t_ng.Accounts.Starting.{alone, logged_in-logins}

-- A start that is let through, and whose code was sent, adds its login to what it finds behind the
-- await.
start_login-sent :
    (now later : Moment) (env : Env) (a : Account) (force_sql : Bool) (session_id : Key)
    (hash : Option String) (elsewhere : Web → Web) (w : Web)
    → Repository.get a.id w.accounts ≡ some a
    → account_in_use now env a.phone w ≡ false
    → is_null (active_for_account now a.id w.logins) ≡ true
    → env.has_credentials ≡ true
    → (start_login now later env
        (some a.id)
        force_sql
        session_id
        (code_sent hash)
        none
        elsewhere
        w).1.logins
      ≡ (elsewhere w).logins ++ new_login later session_id a.id LoginState.wait_code hash 600 ∷ []
unfolding start_login chosen_account finish_start persist_session Logins.create
start_login-sent now later env a force_sql session_id hash elsewhere w here unused free ready =
    rw (here, start_login, chosen_account) (rw unused (rw free (rw ready)))

-- Two logins that are started in overlap both pass the check: where a second start of the account is
-- made while the first waits for Telegram, and both codes are sent, the account has two logins that
-- wait.
pub overlapping_starts :
    (now later : Moment) (env : Env) (a : Account) (force_sql : Bool) (first second : Key)
    (hash other : Option String) (w : Web)
    → now ≤ later
    → later < now + 600
    → Repository.get a.id w.accounts ≡ some a
    → account_in_use now env a.phone w ≡ false
    → is_null (active_for_account now a.id w.logins) ≡ true
    → env.has_credentials ≡ true
    → let meanwhile = λ (v : Web).
      (start_login now now env (some a.id) force_sql second (code_sent other) none alone v).1 in
      active_count later a.id
        (start_login now later env
          (some a.id)
          force_sql
          first
          (code_sent hash)
          none
          meanwhile
          w).1.logins
      ≡ 2
overlapping_starts now later env a force_sql first second hash other w order soon here unused free
      ready =
    let meanwhile = λ (v : Web).
      (start_login now now env (some a.id) force_sql second (code_sent other) none alone v).1 in
    let outer =
      start_login-sent now later env a force_sql first hash meanwhile w here unused free ready in
    let inner =
      start_login-sent now now env a force_sql second other alone w here unused free ready in
    let before = active_count_later now later a.id w.logins order in
    let none_before = active_for_account_none now a.id w.logins free in
    rw outer (
      rw (count_where-append (is_active_login later a.id) (meanwhile w).logins _) (
        rw inner (
          rw (count_where-append (is_active_login later a.id) w.logins _)
            (ground (arith, before, none_before)))))

-- A submission that is let through, and that leaves no session to save.
submit_code-answered :
    (later : Moment) (env : Env) (session_id : Key) (l : Login) (a : Account) (s : Submission)
    (answer : SignIn) (elsewhere : Web → Web) (w : Web)
    → Logins.get session_id w.logins ≡ some l
    → Repository.get l.account_id w.accounts ≡ some a
    → env.has_credentials ≡ true
    → is_waiting l.state ≡ true
    → lacks_input l.state s ≡ false
    → (submit_code later env session_id s answer none elsewhere w).1
      ≡ (finish_code later session_id a l.state (kept answer (elsewhere w)) (elsewhere w)).1
unfolding submit_code persist_session
submit_code-answered later env session_id l a s answer elsewhere w here there ready waits given =
    rw (here, submit_code) (rw there (rw ready (rw given (rw waits))))

-- A code that fails writes back the state that it read: where a second submission of the login is
-- completed while the first waits for Telegram, and the first then fails, the login waits again
-- though Telegram has authorised it.
late_failure_reopens :
    (mid later : Moment) (env : Env) (session_id : Key) (l : Login) (a : Account) (s t : Submission)
    (message : String) (w : Web)
    → Logins.get session_id w.logins ≡ some l
    → Repository.get l.account_id w.accounts ≡ some a
    → env.has_credentials ≡ true
    → is_waiting l.state ≡ true
    → lacks_input l.state s ≡ false
    → lacks_input l.state t ≡ false
    → let meanwhile =
        λ (v : Web). (submit_code mid env session_id t (signed_in true) none alone v).1 in
      let end = (submit_code later env session_id s (sign_in_raises message) none meanwhile w).1 in
      (between : Login) × (after : Login) × (Logins.get session_id (meanwhile w).logins
        ≡ some between)
      × (between.state ≡ LoginState.completed)
      × (Logins.get session_id end.logins ≡ some after)
      × (after.state ≡ l.state)
unfolding finish_code Logins.get Logins.update
late_failure_reopens mid later env session_id l a s t message w here there ready waits code other =
    let meanwhile =
      λ (v : Web). (submit_code mid env session_id t (signed_in true) none alone v).1 in
    let between = rewritten mid LoginState.completed none none l in
    let written =
      find-update_id login_id session_id (rewritten mid LoginState.completed none none) w.logins l
        (λ x. refl) here in
    let first : find login_id session_id (meanwhile w).logins ≡ some between =
      rw
        (submit_code-answered mid env session_id l a t (signed_in true) alone w here there ready
          waits other)
        (rw (logged_in-logins mid a _) written) in
    (
      between,
      rewritten later l.state (some message) none between,
      first,
      refl,
      rw
          (submit_code-answered later env session_id l a s (sign_in_raises message) meanwhile w here
            there ready waits code)
          (find-update_id login_id session_id (rewritten later l.state (some message) none)
            (meanwhile w).logins between (λ x. refl) first),
      refl,
    )
