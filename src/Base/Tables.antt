-- ===== src/Base/Tables.antt =====
-- Database tables as lists of rows, with SQL's SELECT, UPDATE and row counts.
use Prim.Native.Nat.{ℕ, suc}
use mathlib.Core.Path.{◌≡◌, refl}
use mathlib.Core.Logic.{inl, inr}
use mathlib.Core.Bool.{true, false, Bool, ◌&&◌}
use mathlib.Core.Option.{Option, none, some}
use mathlib.Core.List.{◌++◌, List, [], ◌∷◌}
use native.Mathlib.Omega.{arith}
use tools_tele_t_ng.Base.Tests.{◌==◌, if◌then◌else◌, Option-cases}

module _ {R : Type 0} where
  -- `UPDATE … SET f WHERE p`
  abbrev pub update_where : (R → Bool) → (R → R) → List R → List R
  update_where p f [] = []
  update_where p f (r ∷ rs) = (if p r then f r else r) ∷ update_where p f rs

  -- The cursor's `rowcount`, and `COUNT(*)`.
  abbrev pub count_where : (R → Bool) → List R → ℕ
  count_where p [] = 0
  count_where p (r ∷ rs) = if p r then suc (count_where p rs) else count_where p rs

  -- `SELECT … WHERE p LIMIT 1`
  abbrev pub first_where : (R → Bool) → List R → Option R
  first_where p [] = none
  first_where p (r ∷ rs) = if p r then some r else first_where p rs

  abbrev pub select_where : (R → Bool) → List R → List R
  select_where p [] = []
  select_where p (r ∷ rs) = if p r then r ∷ select_where p rs else select_where p rs

  -- A row that an UPDATE may have rewritten.
  abbrev pub updated : (R → Bool) → (R → R) → R → R
  updated p f r = if p r then f r else r

  -- How many of the rows that `find` returned meet a further guard.
  abbrev pub hits : (R → Bool) → Option R → ℕ
  hits q none = 0
  hits q (some r) = if q r then 1 else 0

  abbrev pub hit : (R → Bool) → Option R → Bool
  hit q none = false
  hit q (some r) = q r

  abbrev pub opt_map : (R → R) → Option R → Option R
  opt_map f none = none
  opt_map f (some r) = some (f r)

  -- An UPDATE that meets no row changes nothing.
  pub update_where_idle :
      (p : R → Bool) (f : R → R) (rs : List R) → count_where p rs ≡ 0 → update_where p f rs ≡ rs
  update_where_idle p f [] e = refl
  update_where_idle p f (r ∷ rs) e = ground (arith, update_where_idle p f rs)

  -- The row that a SELECT returns meets its guard.
  pub first_where-holds :
      (p : R → Bool) (rs : List R) (r : R) → first_where p rs ≡ some r → p r ≡ true
  first_where-holds p [] r e = absurd (ground arith)
  first_where-holds p (x ∷ rs) r e = ground (arith, first_where-holds p rs r)

  module _ (key : R → ℕ) where
    -- `SELECT * … WHERE key = k`
    abbrev pub find : ℕ → List R → Option R
    find k [] = none
    find k (r ∷ rs) = if key r == k then some r else find k rs

    -- The primary key's promise: no two rows have one key.
    abbrev pub IsUnique : List R → Type 0
    IsUnique [] = Unit {0}
    IsUnique (r ∷ rs) = (find (key r) rs ≡ none) × IsUnique rs

    pub find-key : (k : ℕ) (rs : List R) (r : R) → find k rs ≡ some r → key r ≡ k
    find-key k [] r e = absurd (ground arith)
    find-key k (x ∷ rs) r e = ground (arith, find-key k rs r)

    -- An UPDATE that leaves the key alone is seen through `find`, whatever its guard.
    pub find-update_where :
        (k : ℕ) (p : R → Bool) (f : R → R) (rs : List R)
        → ((r : R) → key (f r) ≡ key r)
        → find k (update_where p f rs) ≡ opt_map (updated p f) (find k rs)
    find-update_where k p f [] h = refl
    find-update_where k p f (r ∷ rs) h = ground (arith, h r, find-update_where k p f rs h)

    pub update_where-IsUnique :
        (p : R → Bool) (f : R → R) (rs : List R)
        → ((r : R) → key (f r) ≡ key r)
        → IsUnique rs
        → IsUnique (update_where p f rs)
    update_where-IsUnique p f [] h u = tt
    update_where-IsUnique p f (r ∷ rs) h u =
        ground (arith, h r, find-update_where (key r) p f rs h, update_where-IsUnique p f rs h u.1)

    count_where_absent :
        (k : ℕ) (q : R → Bool) (rs : List R)
        → find k rs ≡ none
        → count_where (λ r. (key r == k) && q r) rs ≡ 0
    count_where_absent k q [] e = refl
    count_where_absent k q (r ∷ rs) e = ground (arith, count_where_absent k q rs)

    -- On a table with a primary key, an UPDATE `WHERE key = k AND q` changes one row or none.
    pub count_where-find :
        (k : ℕ) (q : R → Bool) (rs : List R)
        → IsUnique rs
        → count_where (λ r. (key r == k) && q r) rs ≡ hits q (find k rs)
    count_where-find k q [] u = refl
    count_where-find k q (r ∷ rs) u =
        ground (arith, count_where-find k q rs u.1, count_where_absent k q rs)

    -- The row count of a guarded UPDATE by primary key says whether the row met the guard.
    pub rowcount-hit :
        (k : ℕ) (q : R → Bool) (rs : List R)
        → IsUnique rs
        → (count_where (λ r. (key r == k) && q r) rs == 1) ≡ hit q (find k rs)
    rowcount-hit k q rs u = elim (Option-cases (find k rs)) [
      | inl e ↦ ground (arith, count_where-find k q rs u)
      | inr (r, e) ↦ ground (arith, count_where-find k q rs u)
    ]

    -- One that misses leaves the table as it was.
    pub update_where_missed :
        (k : ℕ) (q : R → Bool) (f : R → R) (rs : List R)
        → IsUnique rs
        → hit q (find k rs) ≡ false
        → update_where (λ r. (key r == k) && q r) f rs ≡ rs
    update_where_missed k q f rs u e = elim (Option-cases (find k rs)) [
      | inl n ↦ update_where_idle _ f rs (ground (arith, count_where-find k q rs u))
      | inr (r, n) ↦ update_where_idle _ f rs (ground (arith, count_where-find k q rs u))
    ]

    -- The row of the key itself, after a guarded UPDATE by that key.
    pub find-update_self :
        (k : ℕ) (q : R → Bool) (f : R → R) (rs : List R) (r : R)
        → ((r : R) → key (f r) ≡ key r)
        → find k rs ≡ some r
        → find k (update_where (λ r. (key r == k) && q r) f rs) ≡ some (if q r then f r else r)
    find-update_self k q f rs r h e =
        ground (arith, find-update_where k (λ r. (key r == k) && q r) f rs h, find-key k rs r e)

    -- INSERT of a row whose key is new.
    pub find-append :
        (k : ℕ) (rs : List R) (r : R)
        → find k (rs ++ r ∷ [])
          ≡ elim (find k rs) [ none ↦ if key r == k then some r else none | some x ↦ some x ]
    find-append k [] r = refl
    find-append k (x ∷ rs) r = ground (arith, find-append k rs r)

    pub append-IsUnique :
        (rs : List R) (r : R) → find (key r) rs ≡ none → IsUnique rs → IsUnique (rs ++ r ∷ [])
    append-IsUnique [] r e u = (refl, tt)
    append-IsUnique (x ∷ rs) r e u = ground (arith, append-IsUnique rs r, find-append (key x) rs r)

    -- A guarded UPDATE by primary key, whole: its row count, the row it wrote, or nothing changed.
    pub write_lem :
        (k : ℕ) (q : R → Bool) (f : R → R) (rs : List R) (r : R)
        → ((r : R) → key (f r) ≡ key r)
        → IsUnique rs
        → find k rs ≡ some r
        → ((count_where (λ r. (key r == k) && q r) rs == 1) ≡ q r)
          × (find k (update_where (λ r. (key r == k) && q r) f rs) ≡ some (if q r then f r else r))
          × (q r ≡ false → update_where (λ r. (key r == k) && q r) f rs ≡ rs)
    write_lem k q f rs r h u e = (
      ground (arith, rowcount-hit k q rs u),
      find-update_self k q f rs r h e,
      λ miss. update_where_missed k q f rs u (ground arith),
    )

    -- An UPDATE of rows that meet a guard, by its effect on the row of a key.
    pub find-update_row :
        (k : ℕ) (p : R → Bool) (f : R → R) (rs : List R) (r : R)
        → ((r : R) → key (f r) ≡ key r)
        → find k rs ≡ some r
        → find k (update_where p f rs) ≡ some (if p r then f r else r)
    find-update_row k p f rs r h e = ground (arith, find-update_where k p f rs h)

    -- `UPDATE … WHERE key = k`, by its effect on that row.
    pub find-update_id :
        (k : ℕ) (f : R → R) (rs : List R) (r : R)
        → ((r : R) → key (f r) ≡ key r)
        → find k rs ≡ some r
        → find k (update_where (λ r. key r == k) f rs) ≡ some (f r)
    find-update_id k f rs r h e =
        ground (arith, find-update_where k (λ r. key r == k) f rs h, find-key k rs r e)

    first_where_absent :
        (k : ℕ) (q : R → Bool) (rs : List R)
        → find k rs ≡ none
        → first_where (λ r. (key r == k) && q r) rs ≡ none
    first_where_absent k q [] e = refl
    first_where_absent k q (r ∷ rs) e = ground (arith, first_where_absent k q rs)

    -- A guarded SELECT by primary key looks at one row.
    pub first_where-find :
        (k : ℕ) (q : R → Bool) (rs : List R)
        → IsUnique rs
        → first_where (λ r. (key r == k) && q r) rs
          ≡ elim (find k rs) [ none ↦ none | some r ↦ if q r then some r else none ]
    first_where-find k q [] u = refl
    first_where-find k q (r ∷ rs) u =
        ground (arith, first_where-find k q rs u.1, first_where_absent k q rs)

    -- On a table with a primary key, the row that a SELECT returns is the row of its key.
    pub first_where-find_self :
        (p : R → Bool) (rs : List R) (r : R)
        → IsUnique rs
        → first_where p rs ≡ some r
        → find (key r) rs ≡ some r
    first_where-find_self p [] r u e = absurd (ground arith)
    first_where-find_self p (x ∷ rs) r u e =
        ground (arith, first_where-find_self p rs r u.1, find-key (key r) rs r)
