-- ===== src/WebAuth/Lifetime.antt =====
-- How long a web session is good.
use tools_tele_t_ng.Base.{
  ℕ, ◌≡◌, ◌≢◌, refl, ◌∙◌, ◌≤◌, Bool, not, ◌||◌, Option, none, some, String, List, [], ◌∷◌, find,
  find-append, find-update_id, find-update_where, find-key, is_null, IsUnique, select_where,
  select_where-IsUnique, find-select_where, append-IsUnique, update_where-IsUnique, leb, ◌==◌,
  if◌then◌else◌, arith, Option-cases, inl, inr,
}
use tools_tele_t_ng.Models.Clock.{Moment, iso_from_offset}
use tools_tele_t_ng.Models.Rows.{Key}
use tools_tele_t_ng.WebAuth.Sessions
use tools_tele_t_ng.WebAuth.Sessions.{
  WebSession, session_hash, new_session, verify, revoke, purge_expired,
}
use tools_tele_t_ng.WebAuth.Logins.{issue_token, logout, require_user}

-- What happens to the table of the sessions.
pub data SessionCall : Type 0 where
  issues : Key → String → ℕ → SessionCall
  logs_out : Option Key → SessionCall

unfoldable pub session_call : Moment → SessionCall → List WebSession → List WebSession
session_call now (issues hash username max_age) rows = issue_token now hash username max_age rows
session_call now (logs_out cookie) rows = logout now cookie rows

abbrev pub run_session_calls : List (Moment × SessionCall) → List WebSession → List WebSession
run_session_calls [] rows = rows
run_session_calls ((now, c) ∷ cs) rows = run_session_calls cs (session_call now c rows)

-- The call is about other tokens, and a token that it issues is fresh.
abbrev pub IsOther : Key → SessionCall → List WebSession → Type 0
IsOther hash (issues other username max_age) rows =
    (other ≢ hash) × (find session_hash other rows ≡ none)
IsOther hash (logs_out none) rows = Unit {0}
IsOther hash (logs_out (some other)) rows = other ≢ hash

-- Calls about other tokens, none later than `t`.
abbrev pub AreOthers : Key → Moment → List (Moment × SessionCall) → List WebSession → Type 0
AreOthers hash t [] rows = Unit {0}
AreOthers hash t ((now, c) ∷ cs) rows =
    (now ≤ t) × IsOther hash c rows × AreOthers hash t cs (session_call now c rows)

-- A DELETE by a test keeps the row of a key, if it does not meet the test.
select_where-find :
    (k : Key) (p : WebSession → Bool) (rows : List WebSession)
    → IsUnique session_hash rows
    → find session_hash k (select_where p rows)
      ≡ elim (find session_hash k rows) [ none ↦ none | some s ↦ if p s then some s else none ]
select_where-find k p [] unique = refl
select_where-find k p (s ∷ rows) unique =
    ground (arith, select_where-find k p rows unique.1, find-select_where session_hash k p rows)

-- A purge takes away only sessions that are over already.
purge-verify :
    (now t : Moment) (hash : Key) (rows : List WebSession)
    → IsUnique session_hash rows
    → now ≤ t
    → verify t hash (purge_expired now rows) ≡ verify t hash rows
unfolding verify purge_expired
purge-verify now t hash rows unique h =
    let kept =
      select_where-find hash (λ s. not (leb s.expires_at now || not (is_null s.revoked_at))) rows
        unique in
    elim (Option-cases (find session_hash hash rows)) [
      | inl gone ↦ ground (arith, kept)
      | inr (s, here) ↦ ground (arith, kept)
    ]

issue_token-IsUnique :
    (now : Moment) (hash : Key) (username : String) (max_age : ℕ) (rows : List WebSession)
    → find session_hash hash rows ≡ none
    → IsUnique session_hash rows
    → IsUnique session_hash (issue_token now hash username max_age rows)
unfolding issue_token Sessions.create purge_expired
issue_token-IsUnique now hash username max_age rows fresh unique =
    let good = λ (s : WebSession). not (leb s.expires_at now || not (is_null s.revoked_at)) in
    append-IsUnique session_hash (select_where good rows) (new_session now hash username max_age)
      (find-select_where session_hash hash good rows fresh)
      (select_where-IsUnique session_hash good rows unique)

session_call-IsUnique :
    (now : Moment) (hash : Key) (c : SessionCall) (rows : List WebSession)
    → IsOther hash c rows
    → IsUnique session_hash rows
    → IsUnique session_hash (session_call now c rows)
unfolding session_call logout revoke
session_call-IsUnique now hash (issues other username max_age) rows o unique =
    issue_token-IsUnique now other username max_age rows o.1 unique
session_call-IsUnique now hash (logs_out none) rows o unique = unique
session_call-IsUnique now hash (logs_out (some other)) rows o unique =
    update_where-IsUnique session_hash (λ s. s.token_hash == other)
      (λ s. record s { revoked_at = some now }) rows (λ s. refl) unique

create-verify :
    (now t : Moment) (hash other : Key) (username : String) (max_age : ℕ) (rows : List WebSession)
    → other ≢ hash
    → verify t hash (Sessions.create now other username max_age rows) ≡ verify t hash rows
unfolding verify Sessions.create
create-verify now t hash other username max_age rows ne =
    let appended = find-append session_hash hash rows (new_session now other username max_age) in
    elim (Option-cases (find session_hash hash rows)) [
      | inl gone ↦ ground (arith, appended)
      | inr (s, here) ↦ ground (arith, appended)
    ]

revoke-verify :
    (now t : Moment) (hash other : Key) (rows : List WebSession)
    → other ≢ hash
    → verify t hash (revoke now other rows) ≡ verify t hash rows
unfolding verify revoke
revoke-verify now t hash other rows ne =
    let seen =
      find-update_where session_hash hash (λ s. s.token_hash == other)
        (λ s. record s { revoked_at = some now }) rows (λ s. refl) in
    elim (Option-cases (find session_hash hash rows)) [
      | inl gone ↦ ground (arith, seen)
      | inr (s, here) ↦ ground (arith, seen, find-key session_hash hash rows s here)
    ]

session_call-verify :
    (now t : Moment) (hash : Key) (c : SessionCall) (rows : List WebSession)
    → now ≤ t
    → IsOther hash c rows
    → IsUnique session_hash rows
    → verify t hash (session_call now c rows) ≡ verify t hash rows
unfolding session_call issue_token logout
session_call-verify now t hash (issues other username max_age) rows h o unique =
    create-verify now t hash other username max_age (purge_expired now rows) o.0
    ∙ purge-verify now t hash rows unique h
session_call-verify now t hash (logs_out none) rows h o unique = refl
session_call-verify now t hash (logs_out (some other)) rows h o unique =
    revoke-verify now t hash other rows o

run_session_calls-verify :
    (t : Moment) (hash : Key) (cs : List (Moment × SessionCall)) (rows : List WebSession)
    → AreOthers hash t cs rows
    → IsUnique session_hash rows
    → (verify t hash (run_session_calls cs rows) ≡ verify t hash rows)
      × IsUnique session_hash (run_session_calls cs rows)
run_session_calls-verify t hash [] rows o unique = (refl, unique)
run_session_calls-verify t hash ((now, c) ∷ cs) rows o unique =
    let (same, still) =
      run_session_calls-verify t hash cs (session_call now c rows) o.2
        (session_call-IsUnique now hash c rows o.1 unique) in
    (same ∙ session_call-verify now t hash c rows o.0 o.1 unique, still)

issued-verify :
    (now t : Moment) (hash : Key) (username : String) (max_age : ℕ) (rows : List WebSession)
    → find session_hash hash rows ≡ none
    → verify t hash (issue_token now hash username max_age rows)
      ≡ (if leb (iso_from_offset now max_age) t then none else some username)
unfolding verify issue_token Sessions.create purge_expired
issued-verify now t hash username max_age rows fresh =
    let good = λ (s : WebSession). not (leb s.expires_at now || not (is_null s.revoked_at)) in
    let gone = find-select_where session_hash hash good rows fresh in
    ground (
      arith,
      gone,
      find-append session_hash hash (select_where good rows)
          (new_session now hash username max_age),
    )

revoked-verify :
    (now t : Moment) (hash : Key) (rows : List WebSession)
    → verify t hash (revoke now hash rows) ≡ none
unfolding verify revoke
revoked-verify now t hash rows = elim (Option-cases (find session_hash hash rows)) [
  | inl gone ↦ ground (
    arith,
    find-update_where session_hash hash (λ s. s.token_hash == hash)
        (λ s. record s { revoked_at = some now }) rows (λ s. refl),
  )
  | inr (s, here) ↦ ground (
    arith,
    find-update_id session_hash hash (λ s. record s { revoked_at = some now }) rows s (λ s. refl)
        here,
  )
]

-- A web session is good for exactly as long as it was issued for: whoever else logs in and out
-- meanwhile, and whatever is purged, its token stands for its user before its end and for nobody from
-- then on. Once it is logged out, it stands for nobody, whatever follows.
pub session_lifetime :
    (now t : Moment) (hash : Key) (username : String) (max_age : ℕ) (rows : List WebSession)
    (cs : List (Moment × SessionCall))
    → IsUnique session_hash rows
    → find session_hash hash rows ≡ none
    → let issued = issue_token now hash username max_age rows in
      let during = run_session_calls cs issued in
      AreOthers hash t cs issued
      → (require_user t (some hash) during
          ≡ (if leb (iso_from_offset now max_age) t then none else some username))
        × ((out : Moment) (ds : List (Moment × SessionCall))
            → AreOthers hash t ds (logout out (some hash) during)
            → require_user t (some hash) (run_session_calls ds (logout out (some hash) during))
              ≡ none)
unfolding require_user logout
session_lifetime now t hash username max_age rows cs unique fresh others =
    let issued = issue_token now hash username max_age rows in
    let during = run_session_calls cs issued in
    let start = issue_token-IsUnique now hash username max_age rows fresh unique in
    let (same, still) = run_session_calls-verify t hash cs issued others start in
    (
      same ∙ issued-verify now t hash username max_age rows fresh,
      λ out ds later.
          (run_session_calls-verify t hash ds (revoke out hash during) later (
            update_where-IsUnique session_hash (λ s. s.token_hash == hash)
              (λ s. record s { revoked_at = some out }) during (λ s. refl) still)).0
          ∙ revoked-verify out t hash during,
    )
