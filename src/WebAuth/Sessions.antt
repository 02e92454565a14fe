-- ===== src/WebAuth/Sessions.antt =====
-- `WebSessionRepository`. A token is named by its hash, and a new one is fresh.
use tools_tele_t_ng.Base.{
  ℕ, Bool, not, ◌||◌, Option, none, some, String, List, [], ◌∷◌, ◌++◌, find, select_where,
  update_where, is_null, leb, ◌==◌, if◌then◌else◌,
}
use tools_tele_t_ng.Models.Clock.{Moment, iso_from_offset}
use tools_tele_t_ng.Models.Rows.{Key}

-- A row of `web_sessions`.
pub record WebSession : Type 0 where
  pub token_hash : Key
  pub username : String
  pub created_at : Moment
  pub expires_at : Moment
  pub revoked_at : Option Moment

abbrev pub session_hash : WebSession → Key
session_hash s = s.token_hash

abbrev pub new_session : Moment → Key → String → ℕ → WebSession
new_session now hash username ttl_seconds = record {
  token_hash = hash;
  username = username;
  created_at = now;
  expires_at = iso_from_offset now ttl_seconds;
  revoked_at = none;
}

unfoldable pub create : Moment → Key → String → ℕ → List WebSession → List WebSession
create now hash username ttl_seconds rows = rows ++ new_session now hash username ttl_seconds ∷ []

abbrev pub is_over : Moment → WebSession → Bool
is_over now s = not (is_null s.revoked_at) || leb s.expires_at now

unfoldable pub verify : Moment → Key → List WebSession → Option String
verify now hash rows = elim (find session_hash hash rows) [
  | none ↦ none
  | some s ↦ if is_over now s then none else some s.username
]

unfoldable pub revoke : Moment → Key → List WebSession → List WebSession
revoke now hash = update_where (λ s. s.token_hash == hash) (λ s. record s { revoked_at = some now })

unfoldable pub purge_expired : Moment → List WebSession → List WebSession
purge_expired now = select_where (λ s. not (leb s.expires_at now || not (is_null s.revoked_at)))
