-- ===== src/Accounts/Removal.antt =====
-- What logging out and removing an account leave, and when they are refused.
use tools_tele_t_ng.Base.{
  ◌≡◌, refl, true, false, none, some, List, find, without, find-without, update_where,
  find-update_where, ◌==◌, arith, Option-cases, Bool-cases, inl, inr,
}
use tools_tele_t_ng.Models.Clock.{Moment}
use tools_tele_t_ng.Models.Rows.{Key}
use tools_tele_t_ng.Accounts.Tables.{Account, Web, account_id, session_account}
use tools_tele_t_ng.Accounts.Repository
use tools_tele_t_ng.Accounts.Logins.{delete_session}
use tools_tele_t_ng.Accounts.Manager.{Env, already_busy}
use tools_tele_t_ng.Accounts.Requests.{denied, done, is_attended, erase_session, remove_account}
use tools_tele_t_ng.Accounts.Defaults.{delete-IsDefaulted}
use tools_tele_t_ng.Accounts.Choices.{IsDefaulted}

-- The phones of the accounts are distinct, as the schema promises: the account of a phone is one.
abbrev pub IsPhoned : Web → Account → Type 0
IsPhoned w a = Repository.get_by_phone a.phone w.accounts ≡ some a

-- `promote` and `delete` look up by identifier.
chosen-find :
    (now : Moment) (id gone_id : Key) (accounts : List Account)
    → find account_id gone_id accounts ≡ none
    → find account_id gone_id (
        update_where
          (λ a. a.id == id)
          (Repository.chosen now)
          (update_where (λ _. true) (Repository.cleared now) accounts))
      ≡ none
chosen-find now id gone_id accounts gone = ground (
  arith,
  find-update_where account_id gone_id (λ a. a.id == id) (Repository.chosen now)
      (update_where (λ _. true) (Repository.cleared now) accounts) (λ a. refl),
  find-update_where account_id gone_id (λ _. true) (Repository.cleared now) accounts (λ a. refl),
)

promote-find :
    (now : Moment) (id : Key) (accounts : List Account)
    → find account_id id accounts ≡ none
    → find account_id id (Repository.promote now accounts) ≡ none
unfolding Repository.promote Repository.set_default Repository.get
promote-find now id accounts gone = elim (Option-cases (Repository.get_default accounts)) [
  | inl e ↦ rw (e, Repository.promote) gone
  | inr (a, e) ↦ elim (Option-cases (find account_id a.id accounts)) [
    | inl missing ↦
        rw (e, Repository.promote)
          (rw (missing, Repository.promote, Repository.set_default, Repository.get) gone)
    | inr (b, there) ↦
        rw (e, Repository.promote)
          (rw (there, Repository.promote, Repository.set_default, Repository.get)
            (chosen-find now a.id id accounts gone))
  ]
]

delete-find :
    (now : Moment) (id : Key) (accounts : List Account)
    → find account_id id (Repository.delete now id accounts) ≡ none
unfolding Repository.delete Repository.get
delete-find now id accounts = elim (Option-cases (find account_id id accounts)) [
  | inl gone ↦ rw (gone, Repository.delete, Repository.get) gone
  | inr (a, here) ↦
      let out : find account_id id (without account_id id accounts) ≡ none =
        ground (arith, find-without account_id id id accounts) in
      elim (Bool-cases a.is_default) [
        | inl was ↦
            rw (here, Repository.delete, Repository.get)
              (rw was (promote-find now id (without account_id id accounts) out))
        | inr other ↦ rw (here, Repository.delete, Repository.get) (rw other out)
      ]
]

-- What is left of an account whose removal is done.
pub record IsRemoved (a : Account) (w w' : Web) : Type 0 where
  pub account_gone : find account_id a.id w'.accounts ≡ none
  pub session_gone : find session_account a.id w'.sessions ≡ none
  pub one_default : IsDefaulted w'.accounts
  pub engine_kept : w'.engine ≡ w.engine

-- An account is removed only while nobody uses it: the request is denied, and changes nothing, exactly
-- if the account's lease is held, or a job of the account is not ended, or a login of it waits.
-- Otherwise the account and its stored session are gone, and exactly one of the accounts that are
-- left is the default one.
pub remove_account-IsRemoved :
    (now : Moment) (env : Env) (a : Account) (w : Web)
    → IsDefaulted w.accounts
    → Repository.get a.id w.accounts ≡ some a
    → IsPhoned w a
    → let (outcome, w') = remove_account now env a.id w in
      (is_attended now env a w ≡ true → (outcome ≡ denied already_busy) × (w' ≡ w))
      × (is_attended now env a w ≡ false → (outcome ≡ done) × IsRemoved a w w')
unfolding remove_account delete_session
remove_account-IsRemoved now env a w d here phoned = (
  λ attended. rw (here, remove_account) (rw attended (refl, refl)),
  λ free.
      rw (here, remove_account)
        (rw free (
          rw (phoned, erase_session, delete_session)
            (
              refl,
              record {
                account_gone = delete-find now a.id w.accounts;
                session_gone = ground (arith, find-without session_account a.id a.id w.sessions);
                one_default = delete-IsDefaulted now a.id w.accounts d;
                engine_kept = refl;
              },
            ))),
)
