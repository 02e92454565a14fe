-- ===== src/Accounts/Defaults.antt =====
-- Which account is the default one.
use tools_tele_t_ng.Base.{
  ◌+◌, ◌≡◌, refl, ◌∙◌, sym, Bool, not, Option, none, String, List, [], ◌∷◌, ◌++◌, find,
  update_where, count_where, is_null, IsUnique, count_where-append, count_where-update_where,
  without, count_where-without, select_where-IsUnique, update_where-IsUnique, append-IsUnique, ◌==◌,
  if◌then◌else◌, arith, Option-cases, Bool-cases, inl, inr,
}
use tools_tele_t_ng.Models.Clock.{Moment}
use tools_tele_t_ng.Models.Rows.{Key}
use tools_tele_t_ng.Accounts.Tables.{Account, account_id, is_default_row}
use tools_tele_t_ng.Accounts.Repository.{
  get, get_by_phone, get_default, new_account, create, set_default, mark_logged_in, rename, promote,
  delete,
}
use tools_tele_t_ng.Accounts.Choices.{
  IsDefaulted, chosen-IsDefaulted, get_default-find, get_default_none, one_if_any, one_if_any-find,
  one_if_any-update, or_same, set_default-IsDefaulted,
}

one_if_any-append : (accounts : List Account) (a : Account) → one_if_any (accounts ++ a ∷ []) ≡ 1
one_if_any-append [] a = refl
one_if_any-append (b ∷ rest) a = refl

one_if_any-count :
    (p : Account → Bool) (accounts : List Account)
    → count_where p accounts ≡ 1
    → one_if_any accounts ≡ 1
one_if_any-count p [] e = omega arith
one_if_any-count p (a ∷ rest) e = refl

-- The first account becomes the default, a later one does not.
first-default :
    (accounts : List Account)
    → one_if_any accounts + (if is_null (get_default accounts) then 1 else 0) ≡ 1
unfolding get_default
first-default [] = refl
first-default (a ∷ rest) = elim (Option-cases (get_default (a ∷ rest))) [
  | inl e ↦ ground (arith, get_default_none (a ∷ rest) e)
  | inr (b, e) ↦ ground arith
]

appended-IsDefaulted :
    (accounts : List Account) (a : Account)
    → a.is_default ≡ is_null (get_default accounts)
    → find account_id a.id accounts ≡ none
    → IsDefaulted accounts
    → IsDefaulted (accounts ++ a ∷ [])
appended-IsDefaulted accounts a e fresh d = record {
  keyed = append-IsUnique account_id accounts a fresh d.keyed;
  one_default = ground (
    arith,
    count_where-append is_default_row accounts (a ∷ []),
    one_if_any-append accounts a,
    first-default accounts,
    d.one_default,
  );
}

create-IsDefaulted :
    (now : Moment) (id : Key) (phone : String) (label : Option String) (accounts : List Account)
    → IsDefaulted accounts
    → IsDefaulted (or_same (create now id phone label accounts) accounts)
unfolding create get
create-IsDefaulted now id phone label accounts d =
    elim (Option-cases (find account_id id accounts)) [
      | inr (a, here) ↦ rw (here, or_same, create, get) d
      | inl fresh ↦ elim (Option-cases (get_by_phone phone accounts)) [
        | inr (b, taken) ↦ rw (fresh, taken, or_same, create, get) d
        | inl free ↦
            rw (fresh, free, or_same, create, get)
              (appended-IsDefaulted accounts
                (new_account now id phone label (is_null (get_default accounts))) refl fresh d)
      ]
    ]

promote-IsDefaulted :
    (now : Moment) (accounts : List Account)
    → IsUnique account_id accounts
    → IsDefaulted (promote now accounts)
unfolding promote set_default get
promote-IsDefaulted now accounts unique = elim (Option-cases (get_default accounts)) [
  | inl e ↦
      rw (e, promote) (rw (get_default_none accounts e) (record { keyed = tt; one_default = refl }))
  | inr (a, e) ↦ elim (Option-cases (find account_id a.id accounts)) [
    | inl gone ↦ absurd (ground (arith, get_default-find accounts a e))
    | inr (b, here) ↦
        rw (e, promote, set_default, get)
          (rw (here, promote) (chosen-IsDefaulted now a.id accounts b unique here))
  ]
]

pub delete-IsDefaulted :
    (now : Moment) (id : Key) (accounts : List Account)
    → IsDefaulted accounts
    → IsDefaulted (delete now id accounts)
unfolding delete get
delete-IsDefaulted now id accounts d =
    let rest = without account_id id accounts in
    let unique = select_where-IsUnique account_id (λ a. not (a.id == id)) accounts d.keyed in
    elim (Option-cases (find account_id id accounts)) [
      | inl gone ↦ rw (gone, delete, get) d
      | inr (a, here) ↦
          let count = count_where-without account_id is_default_row id accounts d.keyed in
          let any = one_if_any-find id accounts a here in
          elim (Bool-cases a.is_default) [
            | inl was ↦ rw (here, delete, get) (rw was (promote-IsDefaulted now rest unique))
            | inr other ↦
                let left : count_where is_default_row rest ≡ 1 =
                  ground (arith, count, any, d.one_default) in
                rw (here, delete, get)
                  (rw other (record {
                    keyed = unique;
                    one_default = left ∙ sym (one_if_any-count is_default_row rest left);
                  }))
          ]
    ]

-- An UPDATE that keeps the identifiers and the default marks.
update-IsDefaulted :
    (p : Account → Bool) (f : Account → Account) (accounts : List Account)
    → ((a : Account) → account_id (f a) ≡ account_id a)
    → ((a : Account) → is_default_row (f a) ≡ is_default_row a)
    → IsDefaulted accounts
    → IsDefaulted (update_where p f accounts)
update-IsDefaulted p f accounts k m d = record {
  keyed = update_where-IsUnique account_id p f accounts k d.keyed;
  one_default =
      count_where-update_where is_default_row p f accounts m
      ∙ d.one_default
      ∙ sym (one_if_any-update p f accounts);
}

-- The repository's writes.
pub data AccountWrite : Type 0 where
  creates : Key → String → Option String → AccountWrite
  chooses logs_in deletes : Key → AccountWrite
  renames : Key → String → AccountWrite

unfoldable pub account_write : Moment → AccountWrite → List Account → List Account
account_write now (creates id phone label) accounts =
    or_same (create now id phone label accounts) accounts
account_write now (chooses id) accounts = or_same (set_default now id accounts) accounts
account_write now (logs_in id) accounts = mark_logged_in now id accounts
account_write now (renames id label) accounts = rename now id label accounts
account_write now (deletes id) accounts = delete now id accounts

account_write-IsDefaulted :
    (now : Moment) (w : AccountWrite) (accounts : List Account)
    → IsDefaulted accounts
    → IsDefaulted (account_write now w accounts)
unfolding account_write mark_logged_in rename
account_write-IsDefaulted now (creates id phone label) accounts d =
    create-IsDefaulted now id phone label accounts d
account_write-IsDefaulted now (chooses id) accounts d = set_default-IsDefaulted now id accounts d
account_write-IsDefaulted now (logs_in id) accounts d =
    update-IsDefaulted _ _ accounts (λ a. refl) (λ a. refl) d
account_write-IsDefaulted now (renames id label) accounts d =
    update-IsDefaulted _ _ accounts (λ a. refl) (λ a. refl) d
account_write-IsDefaulted now (deletes id) accounts d = delete-IsDefaulted now id accounts d

abbrev pub run_account_writes : List (Moment × AccountWrite) → List Account → List Account
run_account_writes [] accounts = accounts
run_account_writes ((now, w) ∷ ws) accounts = run_account_writes ws (account_write now w accounts)

-- Whatever accounts are added, chosen, renamed, logged in and removed, and in whatever order and at
-- whatever times, their identifiers stay distinct, and exactly one of them is the default one as long
-- as there are any.
pub run_account_writes-IsDefaulted :
    (ws : List (Moment × AccountWrite)) (accounts : List Account)
    → IsDefaulted accounts
    → IsDefaulted (run_account_writes ws accounts)
run_account_writes-IsDefaulted [] accounts d = d
run_account_writes-IsDefaulted ((now, w) ∷ ws) accounts d =
    run_account_writes-IsDefaulted ws (account_write now w accounts)
      (account_write-IsDefaulted now w accounts d)
