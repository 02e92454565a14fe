-- ===== src/Accounts/Repository.antt =====
-- `AccountRepository` on the rows of `telegram_accounts`. Where two rows tie in an ORDER BY, the
-- first of the table is taken.
use tools_tele_t_ng.Base.{
  Bool, true, false, not, ◌||◌, ◌&&◌, Option, none, some, String, List, [], ◌∷◌, ◌++◌, find,
  first_where, select_where, update_where, without, is_null, ltb, ◌==◌, if◌then◌else◌,
}
use tools_tele_t_ng.Models.Clock.{Moment}
use tools_tele_t_ng.Models.Rows.{Key}
use tools_tele_t_ng.Accounts.Tables.{Account, account_id, has_phone, is_default_row}

-- `ORDER BY … LIMIT 1`: the first row that no other comes before.
abbrev pub first_by : (Account → Account → Bool) → List Account → Option Account
first_by before [] = none
first_by before (a ∷ rest) = elim (first_by before rest) [
  | none ↦ some a
  | some b ↦ if before b a then some b else some a
]

-- `ORDER BY is_default DESC, created_at`
insert_account : Account → List Account → List Account
insert_account a [] = a ∷ []
insert_account a (b ∷ rest) =
    if (a.is_default && not b.is_default)
      || (not (b.is_default && not a.is_default) && not (ltb b.created_at a.created_at))
    then a ∷ b ∷ rest
    else b ∷ insert_account a rest

unfoldable pub list : List Account → List Account
unfolding insert_account
list [] = []
list (a ∷ rest) = insert_account a (list rest)

unfoldable pub get : Key → List Account → Option Account
get id accounts = find account_id id accounts

unfoldable pub get_by_phone : String → List Account → Option Account
get_by_phone phone accounts = first_where (has_phone phone) accounts

unfoldable pub get_default : List Account → Option Account
get_default accounts =
    elim (first_by (λ a b. ltb b.updated_at a.updated_at) (select_where is_default_row accounts)) [
      | some a ↦ some a
      | none ↦ first_by (λ a b. ltb a.created_at b.created_at) accounts
    ]

-- Python's `label or phone`.
abbrev pub label_or : Option String → String → String
label_or none phone = phone
label_or (some String.[]) phone = phone
label_or (some label) phone = label

abbrev pub new_account : Moment → Key → String → Option String → Bool → Account
new_account now id phone label is_default = record {
  id = id;
  label = label_or label phone;
  phone = phone;
  is_default = is_default;
  created_at = now;
  updated_at = now;
  last_login_at = none;
}

-- `none` is the integrity error of a second row with one id or one phone.
unfoldable pub create : Moment → Key → String → Option String → List Account → Option (List Account)
unfolding get get_by_phone get_default
create now id phone label accounts = elim (get id accounts) [
  | some _ ↦ none
  | none ↦ elim (get_by_phone phone accounts) [
    | some _ ↦ none
    | none ↦ some (accounts ++ new_account now id phone label (is_null (get_default accounts)) ∷ [])
  ]
]

-- The second of the two statements, behind the one that clears every default.
abbrev pub cleared : Moment → Account → Account
cleared now a = record a { is_default = false; updated_at = now }

abbrev pub chosen : Moment → Account → Account
chosen now a = record a { is_default = true; updated_at = now }

-- `none`: a `ValueError`, no such account.
unfoldable pub set_default : Moment → Key → List Account → Option (List Account)
unfolding get
set_default now id accounts = elim (get id accounts) [
  | none ↦ none
  | some _ ↦ some (
      update_where (λ a. a.id == id) (chosen now) (update_where (λ _. true) (cleared now) accounts))
]

unfoldable pub mark_logged_in : Moment → Key → List Account → List Account
mark_logged_in now id =
    update_where (λ a. a.id == id) (λ a. record a { last_login_at = some now; updated_at = now })

-- `label.strip()` is the caller's text without the blanks around it.
unfoldable pub rename : Moment → Key → String → List Account → List Account
rename now id stripped_label =
    update_where (λ a. a.id == id) (λ a. record a { label = stripped_label; updated_at = now })

-- The default of the remaining accounts is written, if there are any.
unfoldable pub promote : Moment → List Account → List Account
unfolding get_default set_default
promote now accounts = elim (get_default accounts) [
  | none ↦ accounts
  | some a ↦ elim (set_default now a.id accounts) [ none ↦ accounts | some updated ↦ updated ]
]

unfoldable pub delete : Moment → Key → List Account → List Account
unfolding get promote
delete now id accounts = elim (get id accounts) [
  | none ↦ accounts
  | some row ↦
      if row.is_default
      then promote now (without account_id id accounts)
      else without account_id id accounts
]
