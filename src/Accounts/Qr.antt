-- ===== src/Accounts/Qr.antt =====
-- `AccountManager`: the login by QR code. An entry of `_qr_pending` is waited for by a task; what the
-- task or a request comes to, behind its awaits, is one step.
use tools_tele_t_ng.Base.{
  Bool, true, false, not, Option, none, some, String, List, [], ◌∷◌, ◌++◌, find, update_where,
  without, ◌==◌, if◌then◌else◌,
}
use tools_tele_t_ng.Models.Clock.{Moment}
use tools_tele_t_ng.Models.Rows.{Key}
use tools_tele_t_ng.PhoneUtils.{PhoneNumbers}
use tools_tele_t_ng.Accounts.Tables.{Web}
use tools_tele_t_ng.Accounts.Repository
use tools_tele_t_ng.Accounts.Logins.{non_empty, save_session}
use tools_tele_t_ng.Accounts.Manager.{
  Env, Fault, value_error, already_busy, login_not_found, cache_status,
}
use tools_tele_t_ng.Accounts.Sessions.{
  Found, Installed, refused, import_error, installed, is_engaged, normalize_raw,
}

pub data QrState : Type 0 where
  wait_scan wait_2fa completed expired failed : QrState

-- `has_task`: a task waits for the scan.
pub record QrEntry : Type 0 where
  pub qr_id : Key
  pub state : QrState
  pub error : Option String
  pub account_id : Option Key
  pub needs_2fa : Bool
  pub has_task : Bool

pub record QrWeb : Type 0 where
  pub web : Web
  pub pending : List QrEntry

abbrev pub entry_id : QrEntry → Key
entry_id e = e.qr_id

abbrev pub new_entry : Key → QrEntry
new_entry qr_id = record {
  qr_id = qr_id;
  state = QrState.wait_scan;
  error = none;
  account_id = none;
  needs_2fa = false;
  has_task = true;
}

abbrev pub write_entry : Key → (QrEntry → QrEntry) → QrWeb → QrWeb
write_entry qr_id f q = record q { pending = update_where (λ e. e.qr_id == qr_id) f q.pending }

-- The account of a phone is logged in with a session. Each write is a commit of its own, so what is
-- written before an exception stays.
unfoldable pub write_qr : Moment → String → Key → String → Web → Installed × Web
unfolding save_session
write_qr now phone id text base = elim (non_empty (some text)) [
  | none ↦ (refused value_error, base)
  | some t ↦ elim (save_session now phone t base) [
    | none ↦ (refused value_error, base)
    | some saved ↦ (
      installed id,
      cache_status now id true
          (record saved { accounts = Repository.mark_logged_in now id saved.accounts }),
    )
  ]
]

abbrev pub completed_entry : Key → QrEntry → QrEntry
completed_entry k e = record e { state = QrState.completed; account_id = some k }

abbrev pub finalized : Key → Installed × Web → QrWeb → QrWeb
finalized qr_id (installed k, w) q = write_entry qr_id (completed_entry k) (record q { web = w })
finalized qr_id (_, w) q = record q { web = w }

abbrev pub is_installed : Installed → Bool
is_installed (installed k) = true
is_installed _ = false

-- What `_finalize_qr` comes to behind the mark COMPLETED: the client is disconnected and the status
-- of the account returned, or one of the two raises, a timeout or another exception.
pub data Closing : Type 0 where
  closed closing_times_out closing_raises : Closing

-- How the task ends that waits for a scan: the client was scanned, and who it is, or a password is
-- needed, or the time is over, or another exception with the message that is shown for it.
pub data Scan : Type 0 where
  scanned : Key → Found → Closing → Scan
  password_needed timed_out : Scan
  scan_raises : Scan

abbrev pub failed_entry : String → QrEntry → QrEntry
failed_entry message e = record e { state = QrState.failed; error = some message; has_task = false }

abbrev pub end_task : QrEntry → QrEntry
end_task e = record e { has_task = false }

abbrev pub is_completed : QrState → Bool
is_completed QrState.completed = true
is_completed _ = false

abbrev pub is_wait_2fa : QrState → Bool
is_wait_2fa QrState.wait_2fa = true
is_wait_2fa _ = false

abbrev pub refreshed : Bool → QrEntry → QrEntry
refreshed false e = record e { has_task = false }
refreshed true e = record e {
  state = QrState.wait_scan;
  error = none;
  needs_2fa = false;
  has_task = true;
}

-- What a submitted password is answered with.
abbrev pub fault_of : Closing → Installed → Option Fault
fault_of closing (refused e) = some e
fault_of closing import_error = some value_error
fault_of closed (installed k) = none
fault_of _ (installed k) = some value_error

-- `_wait_qr` behind a login that was marked COMPLETED.
abbrev pub left_entry : String → Closing → QrEntry → QrEntry
left_entry message closed e = e
left_entry message closing_times_out e = record e { state = QrState.expired }
left_entry message closing_raises e = failed_entry message e

-- What a scanned client comes to. The account stays in the entry where an exception follows.
abbrev pub scan_result : Key → String → Closing → Installed × Web → QrWeb → QrWeb
scan_result qr_id message closing end q =
    if is_installed end.0
    then write_entry qr_id (left_entry message closing)
        (finalized qr_id end (write_entry qr_id end_task q))
    else write_entry qr_id (failed_entry message) (finalized qr_id end q)

-- `connects`: the client connects and Telegram makes a QR code.
unfoldable pub start_qr_login : Env → Key → Bool → QrWeb → Option Fault × QrWeb
start_qr_login env qr_id connects q =
    if not env.has_credentials
    then (some value_error, q)
    else if connects
    then (none, record q { pending = q.pending ++ new_entry qr_id ∷ [] })
    else (some value_error, q)

-- The old task is cancelled first; `renews`: Telegram makes another QR code.
unfoldable pub refresh_qr : Key → Bool → QrWeb → Option Fault × QrWeb
refresh_qr qr_id renews q = elim (find entry_id qr_id q.pending) [
  | none ↦ (some login_not_found, q)
  | some e ↦
      if is_completed e.state
      then (none, q)
      else (if renews then none else some value_error, write_entry qr_id (refreshed renews) q)
]

unfoldable pub cancel_qr : Key → QrWeb → QrWeb
cancel_qr qr_id q = record q { pending = without entry_id qr_id q.pending }

module _ (p : PhoneNumbers) (region : Option String) (env : Env) where
  -- `_finalize_qr`, between `get_me` and the mark COMPLETED.
  unfoldable pub finalize_qr : Moment → Key → Found → Web → Installed × Web
  unfolding write_qr normalize_raw
  finalize_qr now fresh f w = elim (non_empty f.phone) [
    | none ↦ (refused value_error, w)
    | some raw ↦ elim (normalize_raw p region raw) [
      | none ↦ (refused value_error, w)
      | some phone ↦ elim (Repository.get_by_phone phone w.accounts) [
        | some a ↦
            if is_engaged now env phone w
            then (refused already_busy, w)
            else write_qr now phone a.id f.session_string w
        | none ↦ elim (Repository.create now fresh phone (some f.default_label) w.accounts) [
          | none ↦ (refused value_error, w)
          | some accounts ↦
              write_qr now phone fresh f.session_string (record w { accounts = accounts })
        ]
      ]
    ]
  ]

  -- `_wait_qr`
  unfoldable pub wait_qr : Moment → Key → String → Scan → QrWeb → QrWeb
  unfolding finalize_qr
  wait_qr now qr_id message password_needed q =
      write_entry qr_id
        (λ e. record e { state = QrState.wait_2fa; needs_2fa = true; has_task = false }) q
  wait_qr now qr_id message timed_out q =
      write_entry qr_id (λ e. record e { state = QrState.expired; has_task = false }) q
  wait_qr now qr_id message scan_raises q = write_entry qr_id (failed_entry message) q
  wait_qr now qr_id message (scanned fresh f closing) q =
      scan_result qr_id message closing (finalize_qr now fresh f q.web) q

  -- A task that ends is one that the entry has.
  unfoldable pub task_ends : Moment → Key → String → Scan → QrWeb → QrWeb
  unfolding wait_qr
  task_ends now qr_id message scan q = elim (find entry_id qr_id q.pending) [
    | none ↦ q
    | some e ↦ if e.has_task then wait_qr now qr_id message scan q else q
  ]

  -- `signs_in`: Telegram takes the password.
  unfoldable pub submit_qr_2fa :
      Moment → Key → Bool → Key → Found → Closing → QrWeb → Option Fault × QrWeb
  unfolding finalize_qr
  submit_qr_2fa now qr_id signs_in fresh f closing q = elim (find entry_id qr_id q.pending) [
    | none ↦ (some login_not_found, q)
    | some e ↦
        if not (is_wait_2fa e.state)
        then (some value_error, q)
        else if signs_in
        then (
          fault_of closing (finalize_qr now fresh f q.web).0,
          finalized qr_id (finalize_qr now fresh f q.web) q,
        )
        else (some value_error, q)
  ]
