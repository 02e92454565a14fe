-- ===== src/Base/Deletes.antt =====
-- `DELETE` by primary key, and counts over tables that grow and shrink.
use Prim.Native.Nat.{ℕ, suc, ◌+◌}
use mathlib.Core.Path.{◌≡◌, refl}
use mathlib.Core.Bool.{true, Bool, not}
use mathlib.Core.Option.{none}
use mathlib.Core.List.{List, [], ◌∷◌, ◌++◌}
use native.Mathlib.Omega.{arith}
use tools_tele_t_ng.Base.Tests.{◌==◌, if◌then◌else◌}
use tools_tele_t_ng.Base.Tables.{update_where, count_where, select_where, hits, find, IsUnique}

-- `len` of a list.
abbrev pub length_of {ℓ} : {A : Type ℓ} → List A → ℕ
length_of [] = 0
length_of (x ∷ xs) = suc (length_of xs)

pub length_of-append {ℓ} :
    {A : Type ℓ} (xs ys : List A) → length_of (xs ++ ys) ≡ length_of xs + length_of ys
length_of-append [] ys = omega arith
length_of-append (x ∷ xs) ys = omega (arith, length_of-append xs ys)

module _ {R : Type 0} where
  pub count_where-append :
      (p : R → Bool) (xs ys : List R)
      → count_where p (xs ++ ys) ≡ count_where p xs + count_where p ys
  count_where-append p [] ys = omega arith
  count_where-append p (x ∷ xs) ys = ground (arith, count_where-append p xs ys)

  -- An UPDATE that leaves a test alone leaves its count.
  pub count_where-update_where :
      (p q : R → Bool) (f : R → R) (rs : List R)
      → ((r : R) → p (f r) ≡ p r)
      → count_where p (update_where q f rs) ≡ count_where p rs
  count_where-update_where p q f [] h = refl
  count_where-update_where p q f (r ∷ rs) h =
      ground (arith, h r, count_where-update_where p q f rs h)

  -- An UPDATE that writes what it finds on a second run.
  pub update_where-twice :
      (p : R → Bool) (f : R → R) (rs : List R)
      → ((r : R) → p (f r) ≡ p r)
      → ((r : R) → f (f r) ≡ f r)
      → update_where p f (update_where p f rs) ≡ update_where p f rs
  update_where-twice p f [] h k = refl
  update_where-twice p f (r ∷ rs) h k = ground (arith, h r, k r, update_where-twice p f rs h k)

  -- What no row meets, none meets under a stronger test.
  pub count_where-zero :
      (p q : R → Bool) (rs : List R)
      → ((r : R) → q r ≡ true → p r ≡ true)
      → count_where p rs ≡ 0
      → count_where q rs ≡ 0
  count_where-zero p q [] h e = refl
  count_where-zero p q (r ∷ rs) h e = ground (arith, h r, count_where-zero p q rs h)

  module _ (key : R → ℕ) where
    abbrev pub without : ℕ → List R → List R
    without k rs = select_where (λ r. not (key r == k)) rs

    pub find-select_where :
        (k : ℕ) (p : R → Bool) (rs : List R)
        → find key k rs ≡ none
        → find key k (select_where p rs) ≡ none
    find-select_where k p [] e = refl
    find-select_where k p (r ∷ rs) e = ground (arith, find-select_where k p rs)

    pub select_where-IsUnique :
        (p : R → Bool) (rs : List R) → IsUnique key rs → IsUnique key (select_where p rs)
    select_where-IsUnique p [] u = tt
    select_where-IsUnique p (r ∷ rs) u =
        let rest = select_where-IsUnique p rs u.1 in
        ground (arith, rest, find-select_where (key r) p rs)

    pub find-without :
        (j k : ℕ) (rs : List R)
        → find key j (without k rs) ≡ (if j == k then none else find key j rs)
    find-without j k [] = ground arith
    find-without j k (r ∷ rs) = ground (arith, find-without j k rs)

    without_absent : (k : ℕ) (rs : List R) → find key k rs ≡ none → without k rs ≡ rs
    without_absent k [] e = refl
    without_absent k (r ∷ rs) e = ground (arith, without_absent k rs)

    -- A DELETE by primary key takes one row out of a count, or none.
    pub count_where-without :
        (p : R → Bool) (k : ℕ) (rs : List R)
        → IsUnique key rs
        → count_where p (without k rs) + hits p (find key k rs) ≡ count_where p rs
    count_where-without p k [] u = refl
    count_where-without p k (r ∷ rs) u =
        ground (arith, count_where-without p k rs u.1, without_absent k rs)
