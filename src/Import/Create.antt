-- ===== src/Import/Create.antt =====
-- `_create_job_with_numbers`. The identifier of the job is a fresh UUID; `config` is given by the
-- phone of the account, the default region and the number of attempts.
use Prim.Native.Char.{Char, code}
use text.Mathlib.Text.{◌==◌ as ◌≈◌}
use tools_tele_t_ng.Base.{
  ℕ, ◌+◌, length_of, Bool, false, ◌&&◌, ◌||◌, Option, none, some, String, List, [], ◌∷◌, ◌++◌, ◌==◌,
  if◌then◌else◌,
}
use tools_tele_t_ng.Models.Clock.{Moment}
use tools_tele_t_ng.Models.Rows.{Key, JobMode}
use tools_tele_t_ng.Database.{Db}
use tools_tele_t_ng.JobRepo.Jobs
use tools_tele_t_ng.JobRepo.Stats.{update_totals}
use tools_tele_t_ng.ResultRepo.Items.{insert, insert_invalid}
use tools_tele_t_ng.PhoneUtils.{PhoneNumbers, normalize_phone, strip, is_empty}

-- The text starts with a line feed.
abbrev starts_line : String → Bool
starts_line String.[] = false
starts_line (String.◌∷◌ c s) = code c == 10

-- `.replace("\r\n", "\n")`
replace_crlf : String → String
replace_crlf String.[] = String.[]
replace_crlf (String.◌∷◌ c s) =
    let rest = replace_crlf s in if (code c == 13) && starts_line s then rest else String.◌∷◌ c rest

-- `.replace("\r", "\n")`
replace_cr : String → String
replace_cr String.[] = String.[]
replace_cr (String.◌∷◌ c s) =
    let rest = replace_cr s in String.◌∷◌ (if code c == 13 then "\n" else c) rest

abbrev grow : Char → List String → List String
grow c [] = String.◌∷◌ c String.[] ∷ []
grow c (s ∷ rest) = String.◌∷◌ c s ∷ rest

-- `str.split` at one character, by its code.
split : ℕ → String → List String
split sep String.[] = String.[] ∷ []
split sep (String.◌∷◌ c s) =
    let rest = split sep s in if code c == sep then String.[] ∷ rest else grow c rest

-- `token.strip() for … if token.strip()`
kept_tokens : List String → List String
kept_tokens [] = []
kept_tokens (t ∷ rest) =
    let others = kept_tokens rest in if is_empty (strip t) then others else strip t ∷ others

line_tokens : List String → List String
unfolding split kept_tokens
line_tokens [] = []
line_tokens (line ∷ rest) = kept_tokens (split 44 line) ++ line_tokens rest

unfoldable pub raw_phones : String → List String
unfolding replace_crlf replace_cr split line_tokens
raw_phones phones_csv = line_tokens (split 10 (replace_cr (replace_crlf phones_csv)))

-- What the loop over the phones has collected: the phones with their normal forms, and the invalid.
pub record Sorted : Type 0 where
  pub normalized : List (String × String)
  pub invalid : List String

-- Membership in `seen`, the normal forms so far.
abbrev pub is_seen : String → List (String × String) → Bool
is_seen norm [] = false
is_seen norm ((raw, n) ∷ rest) = (n ≈ norm) || is_seen norm rest

module _ (normalize : String → Option String) where
  unfoldable pub sort_phone : String → Sorted → Sorted
  sort_phone raw acc = elim (normalize raw) [
    | none ↦ record acc { invalid = acc.invalid ++ raw ∷ [] }
    | some norm ↦
        if is_seen norm acc.normalized
        then acc
        else record acc { normalized = acc.normalized ++ (raw, norm) ∷ [] }
  ]

  unfoldable pub sort_phones : List String → Sorted → Sorted
  unfolding sort_phone
  sort_phones [] acc = acc
  sort_phones (raw ∷ rest) acc = sort_phones rest (sort_phone raw acc)

abbrev pub nothing_sorted : Sorted
nothing_sorted = record { normalized = []; invalid = [] }

unfoldable pub insert_all : Moment → Key → ℕ → List (String × String) → Db → Db
insert_all now job_id max_attempts [] db = db
insert_all now job_id max_attempts ((raw, norm) ∷ rest) db =
    insert_all now job_id max_attempts rest (insert now job_id raw norm max_attempts db).0

unfoldable pub insert_invalids : Moment → Key → List String → Db → Db
insert_invalids now job_id [] db = db
insert_invalids now job_id (raw ∷ rest) db =
    insert_invalids now job_id rest (insert_invalid now job_id raw none db).0

-- The settings of the caller's copy of the configuration.
pub record Source : Type 0 where
  pub default_phone_region : Option String
  pub api_phone_number : Option Key
  pub max_attempts : ℕ

-- The transaction, on the phones that have been sorted; `none`: it is rolled back, as the job's
-- identifier is taken.
unfoldable pub create_sorted :
    Moment → Key → Option String → Source → JobMode → Option Key → Sorted → Db → Option Db
unfolding insert_all insert_invalids update_totals
create_sorted now job_id name source mode parent s db =
    let bad = length_of s.invalid in
    let total = length_of s.normalized + bad in
    elim (Jobs.create now job_id name total source.api_phone_number mode parent db) [
      | none ↦ none
      | some (db', job) ↦ some (
          update_totals now job_id total bad 0 0 bad 0 (
            insert_invalids now job_id s.invalid
              (insert_all now job_id source.max_attempts s.normalized db')))
    ]

module _ (p : PhoneNumbers) where
  unfoldable pub create_job_with_numbers :
      Moment → Key → Option String → Source → JobMode → Option Key → String → Db → Option Db
  unfolding raw_phones sort_phones create_sorted
  create_job_with_numbers now job_id name source mode parent phones_csv =
      create_sorted now job_id name source mode parent (
        sort_phones (λ raw. normalize_phone p (some raw) source.default_phone_region)
          (raw_phones phones_csv) nothing_sorted)
