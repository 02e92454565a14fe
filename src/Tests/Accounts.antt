-- ===== src/Tests/Accounts.antt =====
-- Accounts and logins of the web interface, at concrete tables.
use tools_tele_t_ng.Base.{◌≡◌, refl, true, false, none, some, List, [], ◌∷◌, arith}
use tools_tele_t_ng.Models.Clock.{Moment}
use tools_tele_t_ng.Database.{empty_db}
use tools_tele_t_ng.Accounts.Tables.{Account, Web}
use tools_tele_t_ng.Accounts.Repository
use tools_tele_t_ng.Accounts.Logins
use tools_tele_t_ng.JobRepo.AccountLeases.{is_account_owned}
use tools_tele_t_ng.Accounts.Manager.{Env, account_in_use, already_busy, code_sent, start_login}
use tools_tele_t_ng.Accounts.Requests.{
  denied, done, is_attended, remove_account, Submission, needs_password, sign_in_raises,
  submit_code,
}
use tools_tele_t_ng.Accounts.Active.{active_count}
use tools_tele_t_ng.Accounts.Defaults
use tools_tele_t_ng.Accounts.Defaults.{
  AccountWrite, run_account_writes, run_account_writes-IsDefaulted,
}
use tools_tele_t_ng.Accounts.Choices.{IsDefaulted}
use tools_tele_t_ng.Accounts.Waiting
use tools_tele_t_ng.Accounts.Waiting.{
  LoginCall, run_login_calls, last_moment, run_login_calls-IsKept,
}
use tools_tele_t_ng.Accounts.Starting.{alone, IsKept}
use tools_tele_t_ng.Accounts.Overlaps.{overlapping_starts}
use tools_tele_t_ng.Accounts.Removal.{IsRemoved, remove_account-IsRemoved}
use tools_tele_t_ng.Accounts.Sessions.{Found}

abbrev first_account : Account
first_account = record {
  id = 1;
  label = "one";
  phone = "+84911111111";
  is_default = true;
  created_at = 0;
  updated_at = 0;
  last_login_at = none;
}

abbrev second_account : Account
second_account = record first_account {
  id = 2;
  label = "two";
  phone = "+84922222222";
  is_default = false;
}

abbrev two_accounts : List Account
two_accounts = first_account ∷ second_account ∷ []

abbrev two_defaulted : IsDefaulted two_accounts
two_defaulted = record { keyed = (refl, (refl, tt)); one_default = refl }

-- The default account is removed, and a third one is added.
abbrev account_writes : List (Moment × AccountWrite)
account_writes =
    (10, Defaults.deletes 1)
    ∷ (20, Defaults.creates 3 "+84933333333" none)
    ∷ (30, Defaults.chooses 3)
    ∷ []

run_account_writes-IsDefaulted_example :
    IsDefaulted (run_account_writes account_writes two_accounts)
run_account_writes-IsDefaulted_example =
    run_account_writes-IsDefaulted account_writes two_accounts two_defaulted

abbrev pub env : Env
env = record {
  account_key = λ phone. 5;
  phone_number = λ phone. 84911111111;
  has_credentials = true;
  api_phone_number = none;
}

abbrev pub web : Web
web = record {
  engine = empty_db;
  accounts = two_accounts;
  sessions = record { account_id = 1; session = "s"; updated_at = 0 } ∷ [];
  logins = [];
  status_cache = [];
  legacy_files = [];
}

remove_account-IsRemoved_example :
    let (outcome, w') = remove_account 10 env 1 web in
    (is_attended 10 env first_account web ≡ true → (outcome ≡ denied already_busy) × (w' ≡ web))
    × (is_attended 10 env first_account web ≡ false
        → (outcome ≡ done) × IsRemoved first_account web w')
unfolding Repository.get Repository.get_by_phone
remove_account-IsRemoved_example =
    remove_account-IsRemoved 10 env first_account web two_defaulted refl refl

abbrev submission : Submission
submission = record { code = "12345"; password = "secret" }

-- A login is started, its code is wrong, another start is refused, the code asks for the password.
abbrev login_calls : List (Moment × LoginCall)
login_calls =
    (10, Waiting.starts (some 1) true 31 (code_sent (some "hash")) none)
    ∷ (20, Waiting.submits 31 submission (sign_in_raises "wrong") none)
    ∷ (30, Waiting.starts (some 1) true 32 (code_sent none) none)
    ∷ (40, Waiting.submits 31 submission needs_password none)
    ∷ []

run_login_calls-IsKept_example :
    IsKept (last_moment 0 login_calls) (run_login_calls env login_calls web).logins
unfolding Waiting.login_call start_login submit_code Logins.get Logins.create Logins.update
    Repository.get is_account_owned Logins.active_for_account
run_login_calls-IsKept_example =
    run_login_calls-IsKept env 0 login_calls web
      (omega arith, refl, (omega arith, tt, (omega arith, refl, (omega arith, tt, tt))))
      (record { keyed = tt; one_waits = λ account. omega arith })

overlapping_starts_example :
    let meanwhile =
      λ (v : Web). (start_login 10 10 env (some 1) true 32 (code_sent none) none alone v).1 in
    active_count 20 1
      (start_login 10 20 env (some 1) true 31 (code_sent none) none meanwhile web).1.logins
    ≡ 2
unfolding Repository.get account_in_use is_account_owned Logins.active_for_account
overlapping_starts_example =
    overlapping_starts 10 20 env first_account true 31 32 none none web (omega arith) (omega arith)
      refl refl refl refl

-- A file of the number that the small library knows, which no account has.
abbrev pub found_session : Found
found_session = record {
  phone = some "84912345678";
  session_string = "text";
  default_label = "user";
}
