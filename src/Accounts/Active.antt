-- ===== src/Accounts/Active.antt =====
-- How many logins of an account wait for a code or a password.
use tools_tele_t_ng.Base.{
  ℕ, ◌≡◌, refl, ◌≤◌, inl, inr, Bool, true, false, Option, none, some, String, List, [], ◌∷◌, find,
  select_where, update_where, count_where, is_null, IsUnique, count_where-append, ◌==◌, arith,
  Bool-cases,
}
use tools_tele_t_ng.Models.Clock.{Moment}
use tools_tele_t_ng.Models.Rows.{Key}
use tools_tele_t_ng.Accounts.Tables.{LoginState, Login, login_id}
use tools_tele_t_ng.Accounts.Logins
use tools_tele_t_ng.Accounts.Logins.{
  is_waiting, is_active_login, newest, active_for_account, new_login, rewritten,
}

abbrev pub active_count : Moment → Key → List Login → ℕ
active_count now account logins = count_where (is_active_login now account) logins

-- Time makes no login active again.
pub active_count_later :
    (now later : Moment) (account : Key) (logins : List Login)
    → now ≤ later
    → active_count later account logins ≤ active_count now account logins
active_count_later now later account [] h = omega arith
active_count_later now later account (l ∷ rest) h =
    ground (arith, active_count_later now later account rest h)

newest_some : (l : Login) (rest : List Login) → is_null (newest (l ∷ rest)) ≡ false
newest_some l rest = ground arith

-- Where `active_for_account` finds nothing, there is nothing.
pub active_for_account_none :
    (now : Moment) (account : Key) (logins : List Login)
    → is_null (active_for_account now account logins) ≡ true
    → active_count now account logins ≡ 0
unfolding active_for_account
active_for_account_none now account [] e = refl
active_for_account_none now account (l ∷ rest) e = ground (
  arith,
  active_for_account_none now account rest,
  newest_some l (select_where (is_active_login now account) rest),
)

module _ (k : Key) (f : Login → Login) (p : Login → Bool) where
  update_absent :
      (logins : List Login)
      → find login_id k logins ≡ none
      → update_where (λ l. l.session_id == k) f logins ≡ logins
  update_absent [] e = refl
  update_absent (l ∷ rest) e = ground (arith, update_absent rest)

  -- An UPDATE of one login that makes nothing of it that it was not before.
  pub count-update_le :
      (logins : List Login) (l : Login)
      → IsUnique login_id logins
      → find login_id k logins ≡ some l
      → (p (f l) ≡ true → p l ≡ true)
      → count_where p (update_where (λ l. l.session_id == k) f logins) ≤ count_where p logins
  count-update_le [] l u e h = absurd (ground arith)
  count-update_le (x ∷ rest) l u e h = elim (Bool-cases (x.session_id == k)) [
    | inl here ↦
        let same : x ≡ l = ground arith in
        let key : x.session_id ≡ k = ground arith in ground (arith, update_absent rest, h)
    | inr other ↦ ground (arith, count-update_le rest l)
  ]

-- No account has two logins that wait and have not expired.
abbrev pub AtMostOne : Moment → List Login → Type 0
AtMostOne now logins = (account : Key) → active_count now account logins ≤ 1

pub AtMostOne-later :
    (now later : Moment) (logins : List Login)
    → now ≤ later
    → AtMostOne now logins
    → AtMostOne later logins
AtMostOne-later now later logins h one account =
    omega (arith, active_count_later now later account logins h, one account)

-- A new login of an account that has none waiting.
pub AtMostOne-create :
    (now : Moment) (session_id account : Key) (state : LoginState) (hash : Option String) (ttl : ℕ)
    (logins : List Login)
    → active_count now account logins ≡ 0
    → AtMostOne now logins
    → AtMostOne now (Logins.create now session_id account state hash ttl logins)
unfolding Logins.create
AtMostOne-create now session_id account state hash ttl logins free one other = ground (
  arith,
  count_where-append (is_active_login now other) logins
      (new_login now session_id account state hash ttl ∷ []),
  one other,
)

-- A write to a login that waited already, or that waits no more.
pub AtMostOne-update :
    (now : Moment) (session_id : Key) (state : LoginState) (error hash : Option String)
    (logins : List Login) (l : Login)
    → IsUnique login_id logins
    → find login_id session_id logins ≡ some l
    → (is_waiting state ≡ true → is_waiting l.state ≡ true)
    → AtMostOne now logins
    → AtMostOne now (Logins.update now session_id state error hash logins)
unfolding Logins.update
AtMostOne-update now session_id state error hash logins l unique here waited one other = omega (
  arith,
  count-update_le session_id (rewritten now state error hash) (is_active_login now other) logins l
      unique here (λ e. ground (arith, waited)),
  one other,
)
