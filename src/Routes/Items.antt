-- ===== src/Routes/Items.antt =====
-- `get_items`: one page of the items of a job. The masks of the phones are left out.
use tools_tele_t_ng.Base.{
  ℕ, zero, suc, ◌-◌, ◌*◌, Bool, true, false, ◌&&◌, ◌||◌, Option, none, some, String, List, [], ◌∷◌,
  select_where, length_of, ◌==◌,
}
use Prim.Native.Nat.{max, min}
use tools_tele_t_ng.Models.Status.{CheckStatus, same_status}
use tools_tele_t_ng.Models.Rows.{Key, Job, CheckItem}
use tools_tele_t_ng.Database.{Db}
use tools_tele_t_ng.JobRepo.Jobs.{get}
use tools_tele_t_ng.Runner.Actions.{targets}
use tools_tele_t_ng.Import.Deal.{take}

abbrev pub drop {ℓ} : {A : Type ℓ} → ℕ → List A → List A
drop zero xs = xs
drop (suc n) [] = []
drop (suc n) (x ∷ xs) = drop n xs

abbrev pub is_target : List Job → CheckItem → Bool
is_target [] i = false
is_target (j ∷ rest) i = (i.job_id == j.id) || is_target rest i

-- The status that is asked for: none, or one, or a text that is no status.
pub data StatusFilter : Type 0 where
  any_status no_status : StatusFilter
  with_status : CheckStatus → StatusFilter

abbrev pub passes : StatusFilter → CheckItem → Bool
passes any_status i = true
passes no_status i = false
passes (with_status s) i = same_status s i.status

-- SQL's LIKE, and the text that is searched for.
pub record Search : Type 0 where
  pub like : String → String → Bool
  pub q : Option String

abbrev pub like_or_null : (String → String → Bool) → String → Option String → Bool
like_or_null like q none = false
like_or_null like q (some text) = like q text

abbrev pub hits_search : Search → CheckItem → Bool
hits_search s i = elim s.q [
  | none ↦ true
  | some String.[] ↦ true
  | some q ↦ s.like q i.original_phone || like_or_null s.like q i.normalized_phone
]

abbrev pub is_wanted : List Job → StatusFilter → Search → CheckItem → Bool
is_wanted jobs f s i = is_target jobs i && (passes f i && hits_search s i)

pub record Page : Type 0 where
  pub items : List CheckItem
  pub total : ℕ
  pub page : ℕ
  pub page_size : ℕ

abbrev pub size_of : ℕ → ℕ
size_of page_size = min (max 1 page_size) 200

abbrev pub page_of : ℕ → ℕ → List CheckItem → Page
page_of page size wanted = record {
  items = take size (drop ((page - 1) * size) wanted);
  total = length_of wanted;
  page = page;
  page_size = size;
}

-- `none` is 404. A page below 1 is the first, as is page 0 here.
unfoldable pub get_items : Key → ℕ → ℕ → StatusFilter → Search → Db → Option Page
get_items job_id page page_size f s db = elim (get job_id db) [
  | none ↦ none
  | some j ↦ some (
      page_of (max 1 page) (size_of page_size)
        (select_where (is_wanted (targets j db) f s) db.check_items))
]
