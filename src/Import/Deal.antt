-- ===== src/Import/Deal.antt =====
-- `_unique_distribution_inputs` and `_create_distributed_import_job` of webapi/routers/jobs.py: an
-- import is dealt out over accounts, as one parent job with a branch for each account.
use Prim.Native.String
use text.Mathlib.Text.{◌==◌ as ◌≈◌}
use tools_tele_t_ng.Base.{
  ℕ, suc, zero, ◌+◌, ◌%◌, length_of, Bool, false, ◌||◌, Option, none, some, String, List, [], ◌∷◌,
  ◌++◌, ltb, ◌==◌, if◌then◌else◌,
}
use Prim.Native.Nat.{min}
use tools_tele_t_ng.Models.Clock.{Moment}
use tools_tele_t_ng.Models.Rows.{Key, JobMode}
use tools_tele_t_ng.Database.{Db}
use tools_tele_t_ng.JobRepo.Jobs
use tools_tele_t_ng.JobRepo.Stats.{update_totals}
use tools_tele_t_ng.PhoneUtils.{PhoneNumbers, normalize_phone, strip, is_empty}
use tools_tele_t_ng.Import.Create.{Source, create_job_with_numbers}

-- The key of an input: its normal form, or the folded text of one that has none.
pub data InputKey : Type 0 where
  phone invalid : String → InputKey

abbrev pub same_key : InputKey → InputKey → Bool
same_key (phone a) (phone b) = a ≈ b
same_key (invalid a) (invalid b) = a ≈ b
same_key _ _ = false

abbrev pub in_keys : InputKey → List InputKey → Bool
in_keys k [] = false
in_keys k (j ∷ rest) = same_key j k || in_keys k rest

-- `casefold` is Python's, over the tables of Unicode.
module _ (normalize : String → Option String) (casefold : String → String) where
  abbrev pub input_key : String → InputKey
  input_key value = elim (normalize value) [
    | none ↦ invalid (casefold value)
    | some norm ↦ phone norm
  ]

  abbrev pub output : String → String
  output value = elim (normalize value) [ none ↦ value | some norm ↦ norm ]

  unfoldable pub unique_inputs : List String → List InputKey → List String
  unfolding strip
  unique_inputs [] seen = []
  unique_inputs (raw ∷ rest) seen =
      let value = strip raw in
      let skipped = unique_inputs rest seen in
      let taken = output value ∷ unique_inputs rest (input_key value ∷ seen) in
      if is_empty value then skipped else if in_keys (input_key value) seen then skipped else taken

-- `list(dict.fromkeys(…))`: the first of each, in order.
abbrev pub has_key : Key → List Key → Bool
has_key k [] = false
has_key k (j ∷ rest) = (j == k) || has_key k rest

unfoldable pub distinct_from : List Key → List Key → List Key
distinct_from seen [] = []
distinct_from seen (k ∷ rest) =
    let others = distinct_from seen rest in
    let more = distinct_from (k ∷ seen) rest in if has_key k seen then others else k ∷ more

abbrev pub take {ℓ} : {A : Type ℓ} → ℕ → List A → List A
take zero xs = []
take (suc n) [] = []
take (suc n) (x ∷ xs) = x ∷ take n xs

-- A bucket of each account, in the order of the accounts.
abbrev pub Bucket : Type 0
Bucket = Key × List String

unfoldable pub empty_buckets : List Key → List Bucket
empty_buckets [] = []
empty_buckets (k ∷ ks) = (k, []) ∷ empty_buckets ks

-- `buckets[active_ids[position]].append(value)`
unfoldable pub put : ℕ → String → List Bucket → List Bucket
put n value [] = []
put zero value ((k, values) ∷ rest) = (k, values ++ value ∷ []) ∷ rest
put (suc n) value (b ∷ rest) = b ∷ put n value rest

-- `for index, value in enumerate(unique_inputs)`
unfoldable pub deal : ℕ → ℕ → List String → List Bucket → List Bucket
unfolding put
deal accounts index [] buckets = buckets
deal accounts index (value ∷ rest) buckets =
    deal accounts (suc index) rest (put (index % accounts) value buckets)

unfoldable pub distribute : List Key → List String → List Bucket
unfolding empty_buckets deal
distribute ids inputs =
    let active_ids = take (min (length_of ids) (length_of inputs)) ids in
    deal (length_of active_ids) 0 inputs (empty_buckets active_ids)

-- The texts, with a line feed between two of them.
unfoldable pub join_lines : List String → String
join_lines [] = String.[]
join_lines (s ∷ []) = s
join_lines (s ∷ t ∷ rest) = String.◌++◌ s (String.◌++◌ "\n" (join_lines (t ∷ rest)))

-- What the account manager says of an account: the settings of its branch and the branch's name.
pub record Branch : Type 0 where
  pub source : Source
  pub name : Option String
  pub job_id : Key

pub data Import : Type 0 where
  too_few_accounts too_few_targets unknown_account conflict : Import
  created : Db → Import

-- `none`: the transaction is rolled back.
pub data Branches : Type 0 where
  no_account taken : Branches
  all_of_them : ℕ → Db → Branches

module _ (p : PhoneNumbers) where
  abbrev child_total : Key → Db → ℕ
  child_total job_id db = elim (Jobs.get job_id db) [ none ↦ 0 | some job ↦ job.total_items ]

  unfoldable pub create_branches :
      Moment → Key → (Key → Option Branch) → List Bucket → ℕ → Db → Branches
  unfolding join_lines create_job_with_numbers Jobs.get
  create_branches now parent_id branch_of [] total db = all_of_them total db
  create_branches now parent_id branch_of ((account, values) ∷ rest) total db =
      elim (branch_of account) [
        | none ↦ no_account
        | some b ↦
            elim (create_job_with_numbers p now b.job_id b.name b.source JobMode.multi_branch
              (some parent_id) (join_lines values) db) [
                | none ↦ taken
                | some db' ↦
                    create_branches now parent_id branch_of rest (total + child_total b.job_id db')
                      db'
              ]
      ]

  unfoldable pub create_distributed_import_job :
      Moment
      → Key
      → Option String
      → Option String
      → (String → String)
      → (Key → Option Branch)
      → List Key
      → List String
      → Db
      → Import
  unfolding unique_inputs distinct_from distribute create_branches update_totals
  create_distributed_import_job now parent_id name region casefold branch_of account_ids phones db =
      let ids = distinct_from [] account_ids in
      let inputs = unique_inputs (λ raw. normalize_phone p (some raw) region) casefold phones [] in
      if ltb (length_of ids) 2
      then too_few_accounts
      else if ltb (length_of inputs) 2
      then too_few_targets
      else elim (Jobs.create now parent_id name 0 none JobMode.multi_parent none db) [
        | none ↦ conflict
        | some (db', parent) ↦
            elim (create_branches now parent_id branch_of (distribute ids inputs) 0 db') [
              | no_account ↦ unknown_account
              | taken ↦ conflict
              | all_of_them total db'' ↦ created (update_totals now parent_id total 0 0 0 0 0 db'')
            ]
      ]
