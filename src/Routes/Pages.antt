-- ===== src/Routes/Pages.antt =====
-- The pages of a job's items, put together.
use tools_tele_t_ng.Base.{
  ℕ, zero, suc, ◌+◌, ◌-◌, ◌*◌, ◌≡◌, refl, sym, ap, ap₂, ◌∙◌, ◌≤◌, Option, none, some, List, [], ◌∷◌,
  ◌++◌, select_where, length_of, arith,
}
use Prim.Native.Nat.{max}
use tools_tele_t_ng.Models.Rows.{Key, Job, CheckItem}
use tools_tele_t_ng.Database.{Db}
use tools_tele_t_ng.JobRepo.Jobs.{get}
use tools_tele_t_ng.Runner.Actions.{targets}
use tools_tele_t_ng.Import.Deal.{take}
use tools_tele_t_ng.Routes.Items.{
  drop, StatusFilter, Search, is_wanted, Page, size_of, page_of, get_items,
}

abbrev nothing {ℓ} : {A : Type ℓ} → List A
nothing = []

take-none {ℓ} : {A : Type ℓ} (n : ℕ) → take n (nothing {A = A}) ≡ []
take-none zero = refl
take-none (suc n) = refl

take-split {ℓ} :
    {A : Type ℓ} (m n : ℕ) (xs : List A) → take m xs ++ take n (drop m xs) ≡ take (m + n) xs
take-split zero n xs = ap (λ k. take k xs) (omega arith)
take-split (suc m) n [] = take-none n ∙ sym (take-none (suc m + n))
take-split (suc m) n (x ∷ xs) =
    let next : suc (m + n) ≡ suc m + n = omega arith in
    ap (◌∷◌ x) (take-split m n xs) ∙ ap (λ k. take k (x ∷ xs)) next

take-all {ℓ} : {A : Type ℓ} (n : ℕ) (xs : List A) → length_of xs ≤ n → take n xs ≡ xs
take-all zero [] h = refl
take-all zero (x ∷ xs) h = absurd (omega (arith, h))
take-all (suc n) [] h = refl
take-all (suc n) (x ∷ xs) h = ap (◌∷◌ x) (take-all n xs (omega (arith, h)))

length-take_le {ℓ} : {A : Type ℓ} (n : ℕ) (xs : List A) → length_of (take n xs) ≤ n
length-take_le zero xs = ground arith
length-take_le (suc n) [] = omega arith
length-take_le (suc n) (x ∷ xs) = omega (arith, length-take_le n xs)

abbrev pub items_or_none : Option Page → List CheckItem
items_or_none none = []
items_or_none (some p) = p.items

-- The first `n` pages, one after the other.
abbrev pub first_pages : Key → ℕ → ℕ → StatusFilter → Search → Db → List CheckItem
first_pages job_id zero size f s db = []
first_pages job_id (suc n) size f s db =
    first_pages job_id n size f s db ++ items_or_none (get_items job_id (suc n) size f s db)

module _ (job_id : Key) (j : Job) (page_size : ℕ) (f : StatusFilter) (s : Search) (db : Db)
    (here : get job_id db ≡ some j) where
  abbrev wanted : List CheckItem
  wanted = select_where (is_wanted (targets j db) f s) db.check_items

  first_pages-take :
      (n : ℕ) → first_pages job_id n page_size f s db ≡ take (n * size_of page_size) wanted
  unfolding get_items
  first_pages-take zero =
      let none_yet : 0 ≡ 0 * size_of page_size = omega arith in ap (λ k. take k wanted) none_yet
  first_pages-take (suc n) =
      let size = size_of page_size in
      let same_page : max 1 (suc n) - 1 ≡ n = ground arith in
      let page : items_or_none (get_items job_id (suc n) page_size f s db)
          ≡ take size (drop (n * size) wanted) =
        rw (here, items_or_none, get_items)
          (ap (λ k. take size (drop (k * size) wanted)) same_page) in
      let more : n * size + size ≡ suc n * size = omega arith in
      ap₂ ◌++◌ (first_pages-take n) page
      ∙ take-split (n * size) size wanted
      ∙ ap (λ k. take k wanted) more

-- The pages of a job's items, put together in their order, are the items that are wanted, in the
-- order of the table, each as often as it stands there: none is lost between two pages, and none is
-- shown twice. Enough pages are as many as hold the total that every page tells.
pub first_pages-whole :
    (job_id : Key) (j : Job) (page_size n : ℕ) (f : StatusFilter) (s : Search) (db : Db)
    → get job_id db ≡ some j
    → let wanted = select_where (is_wanted (targets j db) f s) db.check_items in
      length_of wanted ≤ n * size_of page_size
      → (first_pages job_id n page_size f s db ≡ wanted)
        × ((page : ℕ)
            → (p : Page) × (get_items job_id page page_size f s db ≡ some p)
              × (p.total ≡ length_of wanted)
              × (length_of p.items ≤ size_of page_size))
unfolding get_items
first_pages-whole job_id j page_size n f s db here enough =
    let wanted = select_where (is_wanted (targets j db) f s) db.check_items in
    let size = size_of page_size in
    (
      first_pages-take job_id j page_size f s db here n ∙ take-all (n * size) wanted enough,
      λ page. (
        page_of (max 1 page) size wanted,
        rw (here, get_items),
        refl,
        length-take_le size (drop ((max 1 page - 1) * size) wanted),
      ),
    )
