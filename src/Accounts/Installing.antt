-- ===== src/Accounts/Installing.antt =====
-- Who may have a session replaced.
use tools_tele_t_ng.Base.{◌≡◌, ◌≢◌, ◌⊎◌, false, Option, none, some, String, ◌==◌}
use text.Mathlib.Text.{◌==◌ as ◌≈◌}
use tools_tele_t_ng.Models.Clock.{Moment}
use tools_tele_t_ng.Models.Rows.{Key}
use tools_tele_t_ng.PhoneUtils.{PhoneNumbers}
use tools_tele_t_ng.Accounts.Tables.{Account, Web}
use tools_tele_t_ng.Accounts.Repository
use tools_tele_t_ng.Accounts.Logins.{non_empty, load_session}
use tools_tele_t_ng.Accounts.Manager.{Env}
use tools_tele_t_ng.Accounts.Sessions.{
  Found, Installed, refused, import_error, installed, is_engaged, normalize_raw,
}

-- Whose session an import installs under the account `k` and the phone `phone`: `w` are the tables
-- before the file is inspected, `v` those behind it. Where the request names an account, it is that
-- one, and a phone that the file brings has the account's as its normal form; where it does not, the
-- phone is the normal form of the file's, and the account the one of `v` that has it, or the fresh one.
abbrev pub Belongs :
    PhoneNumbers → Option String → Option Key → Key → Found → Web → Web → Key → String → Type 0
Belongs p region (some id) fresh f w v k phone =
    (k ≡ id)
    × ((a : Account) × (Repository.get id w.accounts ≡ some a) × (a.phone ≡ phone))
    × ((raw : String) → non_empty f.phone ≡ some raw → normalize_raw p region raw ≡ some phone)
Belongs p region none fresh f w v k phone =
    ((raw : String) × (non_empty f.phone ≡ some raw) × (normalize_raw p region raw ≡ some phone))
    × (Repository.get_by_phone phone v.accounts ≡ none → k ≡ fresh)
    × ((a : Account) → Repository.get_by_phone phone v.accounts ≡ some a → k ≡ a.id)

-- What an import may do: a session that is installed is stored for a phone to which it belongs, and
-- where `v` has an account of that phone already, no job and no worker is engaged with it; nothing else
-- changes a table.
abbrev pub IsSafe :
    Moment → Env → (Key → String → Type 0) → String → Web → Web → Installed × Web → Type 0
IsSafe later env B text w v (refused e, w') = (w' ≡ w) ⊎ (w' ≡ v)
IsSafe later env B text w v (import_error, w') = (w' ≡ w) ⊎ (w' ≡ v)
IsSafe later env B text w v (installed k, w') =
    (phone : String) × B k phone
    × (load_session phone w' ≡ some (some text))
    × (Repository.get_by_phone phone v.accounts ≢ none → is_engaged later env phone v ≡ false)
