-- ===== src/Accounts/Sessions.antt =====
-- Sessions that come from a file: `AccountManager.import_session_file` and `migrate_legacy_session`.
-- What the file is found to hold is an argument, and `elsewhere` is what other requests do while it is
-- inspected.
use tools_tele_t_ng.Base.{Bool, true, not, ◌||◌, Option, none, some, String, ◌==◌, if◌then◌else◌}
use Prim.Native.Char.{code}
use text.Mathlib.Text.{◌==◌ as ◌≈◌}
use tools_tele_t_ng.Models.Clock.{Moment}
use tools_tele_t_ng.Models.Rows.{Key}
use tools_tele_t_ng.PhoneUtils.{PhoneNumbers, strip}
use tools_tele_t_ng.Accounts.Tables.{Account, Web}
use tools_tele_t_ng.Accounts.Repository
use tools_tele_t_ng.Accounts.Logins.{non_empty, save_session}
use tools_tele_t_ng.Accounts.Manager.{
  Env, Fault, value_error, already_busy, account_in_use, has_unfinished_jobs, has_file,
  cache_status, remove_legacy_session_files,
}

-- What a file brings; the label is the user's name, or the fixed text.
pub record Found : Type 0 where
  pub phone : Option String
  pub session_string : String
  pub default_label : String

pub data Installed : Type 0 where
  refused : Fault → Installed
  import_error : Installed
  installed : Key → Installed

abbrev pub is_engaged : Moment → Env → String → Web → Bool
is_engaged now env phone w = account_in_use now env phone w || has_unfinished_jobs env phone w

-- `"+" + raw.lstrip("+")`
strip_plus : String → String
strip_plus String.[] = String.[]
strip_plus (String.◌∷◌ c s) = if code c == 43 then strip_plus s else String.◌∷◌ c s

with_plus : String → String
unfolding strip_plus
with_plus raw = String.◌∷◌ "+" (strip_plus raw)

-- What follows once the session is saved.
abbrev pub marked_session : Moment → String → Key → Web → Web
marked_session now phone id saved = cache_status now id true (
    remove_legacy_session_files phone
      (record saved { accounts = Repository.mark_logged_in now id saved.accounts }))

-- The writes of one transaction, and what follows it: `base` is the table with the account, and `v`
-- what a rollback leaves.
unfoldable pub write_session : Moment → String → Key → String → Web → Web → Installed × Web
unfolding save_session
write_session now phone id text base v = elim (save_session now phone text base) [
  | none ↦ (refused value_error, v)
  | some saved ↦ (installed id, marked_session now phone id saved)
]

abbrev pub label_or_default : Option String → String → Option String
label_or_default label default = elim (non_empty label) [ none ↦ some default | some l ↦ some l ]

abbrev pub relabelled : Moment → Key → Option String → Web → Web
relabelled now id label w = elim (non_empty label) [
  | none ↦ w
  | some text ↦ record w { accounts = Repository.rename now id (strip text) w.accounts }
]

-- Behind the await, once the account is chosen and its phone is known.
unfoldable pub install :
    Moment → Env → Option Account → String → Option String → Key → Found → Web → Installed × Web
unfolding write_session account_in_use
install now env none phone label fresh f v =
    elim (Repository.create now fresh phone (label_or_default label f.default_label) v.accounts) [
      | none ↦ (refused value_error, v)
      | some accounts ↦
          write_session now phone fresh f.session_string (record v { accounts = accounts }) v
    ]
install now env (some a) phone label fresh f v =
    if is_engaged now env a.phone v
    then (refused already_busy, v)
    else write_session now a.phone a.id f.session_string (relabelled now a.id label v) v

module _ (p : PhoneNumbers) (region : Option String) where
  open p use {parse, is_valid_number, format_e164}

  -- `_normalize_phone` of the raw phone; `none` is an exception.
  unfoldable pub normalize_raw : String → Option String
  unfolding with_plus
  normalize_raw raw = elim (parse (with_plus raw) region) [
    | none ↦ none
    | some n ↦ if is_valid_number n then some (format_e164 n) else none
  ]

  -- By the account that the request names.
  unfoldable pub install_target :
      Moment → Env → Account → Option String → Key → Found → Web → Installed × Web
  unfolding install normalize_raw
  install_target now env a label fresh f v = elim (non_empty f.phone) [
    | none ↦ install now env (some a) a.phone label fresh f v
    | some raw ↦ elim (normalize_raw raw) [
      | none ↦ (refused value_error, v)
      | some actual ↦
          if actual ≈ a.phone
          then install now env (some a) a.phone label fresh f v
          else (import_error, v)
    ]
  ]

  -- By the phone that the file brings.
  unfoldable pub install_found : Moment → Env → Option String → Key → Found → Web → Installed × Web
  unfolding install normalize_raw
  install_found now env label fresh f v = elim (non_empty f.phone) [
    | none ↦ (import_error, v)
    | some raw ↦ elim (normalize_raw raw) [
      | none ↦ (refused value_error, v)
      | some phone ↦
          install now env (Repository.get_by_phone phone v.accounts) phone label fresh f v
    ]
  ]

  -- `none` of the file is an exception of its inspection.
  unfoldable pub import_session_file :
      Moment
      → Moment
      → Env
      → Option Key
      → Option String
      → Key
      → Option Found
      → (Web → Web)
      → Web
      → Installed × Web
  unfolding install_target install_found account_in_use
  import_session_file now later env none label fresh none elsewhere w =
      if not env.has_credentials then (refused value_error, w) else (import_error, elsewhere w)
  import_session_file now later env none label fresh (some f) elsewhere w =
      if not env.has_credentials
      then (refused value_error, w)
      else install_found later env label fresh f (elsewhere w)
  import_session_file now later env (some id) label fresh file elsewhere w =
      if not env.has_credentials
      then (refused value_error, w)
      else elim (Repository.get id w.accounts) [
        | none ↦ (refused value_error, w)
        | some a ↦ if is_engaged now env a.phone w then (refused already_busy, w) else elim file [
          | none ↦ (import_error, elsewhere w)
          | some f ↦ install_target later env a label fresh f (elsewhere w)
        ]
      ]

  -- Behind the await of `migrate_legacy_session`.
  unfoldable pub finish_migration : Moment → Account → Found → Web → Installed × Web
  unfolding write_session normalize_raw
  finish_migration now a f v = elim (non_empty f.phone) [
    | none ↦ write_session now a.phone a.id f.session_string v v
    | some raw ↦ elim (normalize_raw raw) [
      | none ↦ (refused value_error, v)
      | some actual ↦
          if actual ≈ a.phone
          then write_session now a.phone a.id f.session_string v v
          else (import_error, v)
    ]
  ]

  unfoldable pub migrate_legacy_session :
      Moment → Moment → Env → Key → Option Found → (Web → Web) → Web → Installed × Web
  unfolding finish_migration account_in_use
  migrate_legacy_session now later env id file elsewhere w = elim (Repository.get id w.accounts) [
    | none ↦ (refused value_error, w)
    | some a ↦
        if account_in_use now env a.phone w
        then (refused already_busy, w)
        else if not (has_file a.phone w.legacy_files)
        then (refused value_error, w)
        else elim file [
          | none ↦ (import_error, elsewhere w)
          | some f ↦ finish_migration later a f (elsewhere w)
        ]
  ]
