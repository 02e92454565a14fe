-- ===== src/Accounts/Choices.antt =====
-- The choice of a default account: there is one as long as there are accounts.
use tools_tele_t_ng.Base.{
  ℕ, ◌≡◌, refl, ◌∙◌, sym, ap, Bool, true, false, ◌&&◌, Option, none, some, List, [], ◌∷◌, find,
  select_where, update_where, count_where, is_null, IsUnique, hits, count_where-find,
  find-select_where, update_where-IsUnique, ltb, ◌==◌, arith, Option-cases, inl, inr,
}
use tools_tele_t_ng.Models.Clock.{Moment}
use tools_tele_t_ng.Models.Rows.{Key}
use tools_tele_t_ng.Accounts.Tables.{Account, account_id, is_default_row}
use tools_tele_t_ng.Accounts.Repository.{first_by, get, get_default, cleared, chosen, set_default}

abbrev pub one_if_any : List Account → ℕ
one_if_any [] = 0
one_if_any (_ ∷ _) = 1

-- The identifiers differ, and exactly one account is the default, if there are accounts at all.
pub record IsDefaulted (accounts : List Account) : Type 0 where
  pub keyed : IsUnique account_id accounts
  pub one_default : count_where is_default_row accounts ≡ one_if_any accounts

first_by_some :
    (before : Account → Account → Bool) (a : Account) (rest : List Account)
    → is_null (first_by before (a ∷ rest)) ≡ false
first_by_some before a rest = ground arith

-- The account that an ORDER BY puts first is an account of the table.
first_by-find :
    (before : Account → Account → Bool) (accounts : List Account) (a : Account)
    → first_by before accounts ≡ some a
    → is_null (find account_id a.id accounts) ≡ false
first_by-find before [] a e = ground arith
first_by-find before (b ∷ rest) a e = elim (Option-cases (first_by before rest)) [
  | inl e' ↦ ground arith
  | inr (c, e') ↦ ground (arith, first_by-find before rest c e')
]

chosen-count :
    (now : Moment) (id : Key) (accounts : List Account)
    → count_where is_default_row (
        update_where
          (λ a. a.id == id)
          (chosen now)
          (update_where (λ _. true) (cleared now) accounts))
      ≡ count_where (λ a. (a.id == id) && true) accounts
chosen-count now id [] = refl
chosen-count now id (a ∷ rest) = ground (arith, chosen-count now id rest)

double_update-IsUnique :
    (now : Moment) (id : Key) (accounts : List Account)
    → IsUnique account_id accounts
    → IsUnique account_id (
        update_where
          (λ a. a.id == id)
          (chosen now)
          (update_where (λ _. true) (cleared now) accounts))
double_update-IsUnique now id accounts unique =
    update_where-IsUnique account_id (λ a. a.id == id) (chosen now) _ (λ a. refl)
      (update_where-IsUnique account_id (λ _. true) (cleared now) accounts (λ a. refl) unique)

pub one_if_any-update :
    (p : Account → Bool) (f : Account → Account) (accounts : List Account)
    → one_if_any (update_where p f accounts) ≡ one_if_any accounts
one_if_any-update p f [] = refl
one_if_any-update p f (a ∷ rest) = refl

pub one_if_any-find :
    (id : Key) (accounts : List Account) (a : Account)
    → find account_id id accounts ≡ some a
    → one_if_any accounts ≡ 1
one_if_any-find id [] a e = ground arith
one_if_any-find id (b ∷ rest) a e = refl

-- A default that is chosen among the accounts is the only one, whatever was the default before.
pub chosen-IsDefaulted :
    (now : Moment) (id : Key) (accounts : List Account) (a : Account)
    → IsUnique account_id accounts
    → find account_id id accounts ≡ some a
    → IsDefaulted (
        update_where
          (λ a. a.id == id)
          (chosen now)
          (update_where (λ _. true) (cleared now) accounts))
chosen-IsDefaulted now id accounts a unique here = record {
  keyed = double_update-IsUnique now id accounts unique;
  one_default =
      chosen-count now id accounts
      ∙ count_where-find account_id id (λ _. true) accounts unique
      ∙ ap (hits (λ _. true)) here
      ∙ sym (one_if_any-find id accounts a here)
      ∙ sym (one_if_any-update (λ _. true) (cleared now) accounts)
      ∙ sym (one_if_any-update (λ a. a.id == id) (chosen now) _);
}

-- What a call that may raise leaves of the table.
abbrev pub or_same : Option (List Account) → List Account → List Account
or_same none accounts = accounts
or_same (some updated) accounts = updated

pub set_default-IsDefaulted :
    (now : Moment) (id : Key) (accounts : List Account)
    → IsDefaulted accounts
    → IsDefaulted (or_same (set_default now id accounts) accounts)
unfolding set_default get
set_default-IsDefaulted now id accounts d = elim (Option-cases (find account_id id accounts)) [
  | inl gone ↦ rw (gone, or_same, set_default, get) d
  | inr (a, here) ↦
      rw (here, or_same, set_default, get) (chosen-IsDefaulted now id accounts a d.keyed here)
]

-- `get_default` finds an account in any table that has one.
pub get_default_none : (accounts : List Account) → get_default accounts ≡ none → accounts ≡ []
unfolding get_default
get_default_none [] e = refl
get_default_none (a ∷ rest) e =
    let some_first = first_by_some (λ a b. ltb a.created_at b.created_at) a rest in
    elim (Option-cases
      (first_by (λ a b. ltb b.updated_at a.updated_at) (select_where is_default_row (a ∷ rest)))) [
        | inl e' ↦ ground (arith, some_first)
        | inr (b, e') ↦ ground arith
      ]

pub get_default-find :
    (accounts : List Account) (a : Account)
    → get_default accounts ≡ some a
    → is_null (find account_id a.id accounts) ≡ false
unfolding get_default
get_default-find accounts a e =
    let newest = λ (a b : Account). ltb b.updated_at a.updated_at in
    let oldest = λ (a b : Account). ltb a.created_at b.created_at in
    let defaults = select_where is_default_row accounts in
    elim (Option-cases (first_by newest defaults)) [
      | inl e' ↦ first_by-find oldest accounts a (ground arith)
      | inr (b, e') ↦ elim (Option-cases (find account_id a.id accounts)) [
        | inl gone ↦ ground (
          arith,
          first_by-find newest defaults b e',
          find-select_where account_id a.id is_default_row accounts gone,
        )
        | inr (c, here) ↦ rw here
      ]
    ]
