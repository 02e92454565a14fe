-- ===== src/WebAuth/Security.antt =====
-- `LoginSecurityRepository`. The clock is read in milliseconds, the stored moments are seconds.
use tools_tele_t_ng.Base.{
  ℕ, suc, ◌+◌, ◌-◌, ◌*◌, ◌/◌, Option, none, some, List, [], ◌∷◌, ◌++◌, find, update_where, without,
  leb, ◌==◌, if◌then◌else◌,
}
use tools_tele_t_ng.Models.Clock.{Moment}
use tools_tele_t_ng.Models.Rows.{Key}
use tools_tele_t_ng.RateLimiter.State.{to_iso, to_epoch}

-- A row of `web_login_security`.
pub record Security : Type 0 where
  pub client_key : Key
  pub failure_count : ℕ
  pub window_started_at : Option Moment
  pub blocked_until : Option Moment
  pub updated_at : Moment

-- The settings of `AuthService`.
pub record Policy : Type 0 where
  pub failure_limit : ℕ
  pub window_seconds : ℕ
  pub block_seconds : ℕ

abbrev pub security_client : Security → Key
security_client s = s.client_key

-- The whole seconds that are left of a block.
abbrev pub seconds_left : ℕ → Option Moment → ℕ
seconds_left ms none = 0
seconds_left ms (some t) = (to_epoch t - ms) / 1000

unfoldable pub retry_after : ℕ → Key → List Security → ℕ
retry_after ms client rows = elim (find security_client client rows) [
  | none ↦ 0
  | some s ↦ seconds_left ms s.blocked_until
]

-- The failures that count, and when their window has started.
abbrev pub in_window : ℕ → Policy → ℕ → Option Moment → ℕ × ℕ
in_window ms p count none = (0, ms)
in_window ms p count (some start) =
    if leb ms (to_epoch start + p.window_seconds * 1000) then (count, to_epoch start) else (0, ms)

abbrev pub window_of : ℕ → Policy → Option Security → ℕ × ℕ
window_of ms p none = (0, ms)
window_of ms p (some s) = in_window ms p s.failure_count s.window_started_at

-- The row that one more failure writes.
abbrev pub failure_row : ℕ → Key → Policy → ℕ × ℕ → Security
failure_row ms client p (count, start) =
    if leb p.failure_limit (suc count)
    then record {
      client_key = client;
      failure_count = 0;
      window_started_at = some (to_iso ms);
      blocked_until = some (to_iso (ms + p.block_seconds * 1000));
      updated_at = to_iso ms;
    }
    else record {
      client_key = client;
      failure_count = suc count;
      window_started_at = some (to_iso start);
      blocked_until = none;
      updated_at = to_iso ms;
    }

-- `INSERT … ON CONFLICT(client_key) DO UPDATE`
abbrev pub upsert_security : Security → List Security → List Security
upsert_security s rows = elim (find security_client s.client_key rows) [
  | none ↦ rows ++ s ∷ []
  | some _ ↦
      update_where (λ r. r.client_key == s.client_key) (λ r. record s { client_key = r.client_key })
        rows
]

unfoldable pub record_failure : ℕ → Key → Policy → List Security → List Security
record_failure ms client p rows =
    upsert_security (failure_row ms client p (window_of ms p (find security_client client rows)))
      rows

unfoldable pub clear : Key → List Security → List Security
clear client rows = without security_client client rows
