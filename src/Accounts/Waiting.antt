-- ===== src/Accounts/Waiting.antt =====
-- The logins over sequences of requests: an account has at most one that waits and has not expired,
-- and what requests that overlap can do to that.
use tools_tele_t_ng.Base.{
  ◌≡◌, refl, ◌∙◌, ap, ◌≤◌, inl, inr, Bool, true, false, not, Option, none, some, String, List, [],
  ◌∷◌, find, Option-cases, Bool-cases, either_branch,
}
use tools_tele_t_ng.Models.Clock.{Moment}
use tools_tele_t_ng.Models.Rows.{Key}
use tools_tele_t_ng.Accounts.Tables.{Account, LoginState, Login, Web, login_id}
use tools_tele_t_ng.Accounts.Repository
use tools_tele_t_ng.Accounts.Logins
use tools_tele_t_ng.Accounts.Logins.{is_waiting}
use tools_tele_t_ng.Accounts.Manager.{
  Env, persist_session, uses_sql, CodeAnswer, saved_or, start_login, Reply,
}
use tools_tele_t_ng.Accounts.Requests.{
  SignIn, needs_password, signed_in, sign_in_raises, kept, keep, Submission, lacks_input,
  finish_code, submit_code, cancel_login,
}
use tools_tele_t_ng.Accounts.Active.{AtMostOne-later}
use tools_tele_t_ng.Accounts.Starting.{
  IsKept, alone, logged_in-logins, persist_session-logins, start_login-IsKept, update-IsKept,
}

finish_code-IsKept :
    (now : Moment) (session_id : Key) (a : Account) (state : LoginState) (answer : SignIn)
    (w w' : Web) (l : Login)
    → find login_id session_id w'.logins ≡ some l
    → l.state ≡ state
    → is_waiting state ≡ true
    → IsKept now w'.logins
    → IsKept now (finish_code now session_id a state (kept answer w') w).1.logins
unfolding finish_code
finish_code-IsKept now session_id a state (sign_in_raises message) w w' l here same waits k =
    update-IsKept now session_id state (some message) w'.logins l here
      (λ e. ap is_waiting same ∙ waits) k
finish_code-IsKept now session_id a state (signed_in false) w w' l here same waits k = k
finish_code-IsKept now session_id a state (signed_in true) w w' l here same waits k =
    rw (logged_in-logins now a _)
      (update-IsKept now session_id LoginState.completed none w'.logins l here (λ e. cc) k)
finish_code-IsKept now session_id a LoginState.wait_code needs_password w w' l here same waits k =
    update-IsKept now session_id LoginState.wait_2fa none w'.logins l here
      (λ e. ap is_waiting same ∙ waits) k
finish_code-IsKept now session_id a LoginState.wait_2fa needs_password w w' l here same waits k = k
finish_code-IsKept now session_id a LoginState.completed needs_password w w' l here same waits k = k
finish_code-IsKept now session_id a LoginState.failed needs_password w w' l here same waits k = k

answered-IsKept :
    (now : Moment) (session_id : Key) (a : Account) (answer : SignIn) (to_sql : Bool)
    (saved : Option String) (w : Web) (l : Login)
    → find login_id session_id w.logins ≡ some l
    → is_waiting l.state ≡ true
    → IsKept now w.logins
    → IsKept now
        (finish_code now session_id a l.state
          (keep (persist_session now to_sql a.phone saved w) answer)
          w).1.logins
unfolding finish_code
answered-IsKept now session_id a answer to_sql saved w l here waits k =
    elim (Option-cases (persist_session now to_sql a.phone saved w)) [
      | inl e ↦ rw (e, keep, finish_code) k
      | inr (w', e) ↦
          let same = persist_session-logins now to_sql a.phone saved w w' e in
          rw (e, keep)
            (finish_code-IsKept now session_id a l.state answer w w' l
              (ap (find login_id session_id) same ∙ here) refl waits (rw same k))
    ]

submit_code-IsKept :
    (now : Moment) (env : Env) (session_id : Key) (s : Submission) (answer : SignIn)
    (saved : Option String) (w : Web)
    → IsKept now w.logins
    → IsKept now (submit_code now env session_id s answer saved alone w).1.logins
unfolding submit_code Logins.get
submit_code-IsKept now env session_id s answer saved w k =
    elim (Option-cases (find login_id session_id w.logins)) [
      | inl gone ↦ rw (gone, submit_code, Logins.get) k
      | inr (l, here) ↦ elim (Option-cases (Repository.get l.account_id w.accounts)) [
        | inl gone ↦ rw (here, submit_code, Logins.get) (rw gone k)
        | inr (a, there) ↦
            let P : Reply × Web → Type 0 = λ r. IsKept now r.1.logins in
            rw (here, submit_code, Logins.get)
              (rw there (
                either_branch P (not env.has_credentials) k (
                  either_branch P (lacks_input l.state s) k
                    (elim (Bool-cases (is_waiting l.state)) [
                      | inr over ↦ rw over k
                      | inl waits ↦ rw waits (
                          answered-IsKept now session_id a answer (uses_sql false a.phone w) saved w
                            l here waits k)
                    ]))))
      ]
    ]

cancel_login-IsKept :
    (now : Moment) (session_id : Key) (w : Web)
    → IsKept now w.logins
    → IsKept now (saved_or (cancel_login now session_id w) w).logins
unfolding cancel_login Logins.get
cancel_login-IsKept now session_id w k = elim (Option-cases (find login_id session_id w.logins)) [
  | inl gone ↦ rw (gone, saved_or, cancel_login, Logins.get) k
  | inr (l, here) ↦
      rw (here, saved_or, cancel_login, Logins.get)
        (update-IsKept now session_id LoginState.failed _ w.logins l here (λ x. cc) k)
]

-- A request about a login, with Telegram's answer and the session that is saved behind it.
pub data LoginCall : Type 0 where
  starts : Option Key → Bool → Key → CodeAnswer → Option String → LoginCall
  submits : Key → Submission → SignIn → Option String → LoginCall
  cancels : Key → LoginCall

-- One request, from its start to its reply, with no other in between.
unfoldable pub login_call : Env → Moment → LoginCall → Web → Web
login_call env now (starts id force_sql session_id answer saved) w =
    (start_login now now env id force_sql session_id answer saved alone w).1
login_call env now (submits session_id s answer saved) w =
    (submit_code now env session_id s answer saved alone w).1
login_call env now (cancels session_id) w = saved_or (cancel_login now session_id w) w

abbrev pub run_login_calls : Env → List (Moment × LoginCall) → Web → Web
run_login_calls env [] w = w
run_login_calls env ((now, c) ∷ cs) w = run_login_calls env cs (login_call env now c w)

-- A login that is started has an identifier that no row has: they are fresh.
abbrev pub HasFreshId : LoginCall → Web → Type 0
HasFreshId (starts id force_sql session_id answer saved) w =
    find login_id session_id w.logins ≡ none
HasFreshId _ w = Unit {0}

-- The clock does not go back, and each started login is fresh.
abbrev pub AreOrderly : Env → Moment → List (Moment × LoginCall) → Web → Type 0
AreOrderly env since [] w = Unit {0}
AreOrderly env since ((now, c) ∷ cs) w =
    (since ≤ now) × HasFreshId c w × AreOrderly env now cs (login_call env now c w)

login_call-IsKept :
    (env : Env) (now : Moment) (c : LoginCall) (w : Web)
    → HasFreshId c w
    → IsKept now w.logins
    → IsKept now (login_call env now c w).logins
unfolding login_call
login_call-IsKept env now (starts id force_sql session_id answer saved) w fresh k =
    start_login-IsKept now env id force_sql session_id answer saved w fresh k
login_call-IsKept env now (submits session_id s answer saved) w fresh k =
    submit_code-IsKept now env session_id s answer saved w k
login_call-IsKept env now (cancels session_id) w fresh k = cancel_login-IsKept now session_id w k

IsKept-later :
    (since now : Moment) (logins : List Login)
    → since ≤ now
    → IsKept since logins
    → IsKept now logins
IsKept-later since now logins h k = record {
  keyed = k.keyed;
  one_waits = AtMostOne-later since now logins h k.one_waits;
}

abbrev pub last_moment : Moment → List (Moment × LoginCall) → Moment
last_moment since [] = since
last_moment since ((now, c) ∷ cs) = last_moment now cs

-- Where requests about logins follow one another, the identifiers of the logins stay distinct, and at
-- the moment of the last request no account has two logins that wait for a code or a password and
-- have not expired, whatever is started, answered and cancelled, and whatever Telegram says. A started
-- login has a fresh identifier, and the clock does not go back. Logins that have expired are not
-- counted.
pub run_login_calls-IsKept :
    (env : Env) (since : Moment) (cs : List (Moment × LoginCall)) (w : Web)
    → AreOrderly env since cs w
    → IsKept since w.logins
    → IsKept (last_moment since cs) (run_login_calls env cs w).logins
run_login_calls-IsKept env since [] w orderly k = k
run_login_calls-IsKept env since ((now, c) ∷ cs) w orderly k =
    run_login_calls-IsKept env now cs (login_call env now c w) orderly.2
      (login_call-IsKept env now c w orderly.1 (IsKept-later since now w.logins orderly.0 k))
