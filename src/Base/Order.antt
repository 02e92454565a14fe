-- ===== src/Base/Order.antt =====
-- Tables whose keys rise along the rows, as those of an automatic primary key do.
use Prim.Native.Nat.{◌<◌, ◌≤◌, ℕ}
use mathlib.Core.Path.{◌≡◌, refl}
use mathlib.Core.Bool.{true, Bool}
use mathlib.Core.Option.{none, some}
use mathlib.Core.List.{List, [], ◌∷◌}
use native.Mathlib.Omega.{arith}
use tools_tele_t_ng.Base.Tables.{update_where, first_where, find, IsUnique}

module _ {R : Type 0} where
  module _ (key : R → ℕ) where
    -- Keys that rise along the table, from a bound on.
    abbrev pub Above : ℕ → List R → Type 0
    Above n [] = Unit {0}
    Above n (r ∷ rs) = (n < key r) × Above (key r) rs

    find_below : (k n : ℕ) (rs : List R) → k ≤ n → Above n rs → find key k rs ≡ none
    find_below k n [] h a = refl
    find_below k n (r ∷ rs) h a = ground (arith, find_below k (key r) rs)

    pub Above-IsUnique : (n : ℕ) (rs : List R) → Above n rs → IsUnique key rs
    Above-IsUnique n [] a = tt
    Above-IsUnique n (r ∷ rs) a =
        (find_below (key r) (key r) rs (omega arith) a.1, Above-IsUnique (key r) rs a.1)

    pub update_where-Above :
        (n : ℕ) (p : R → Bool) (f : R → R) (rs : List R)
        → ((r : R) → key (f r) ≡ key r)
        → Above n rs
        → Above n (update_where p f rs)
    update_where-Above n p f [] h a = tt
    update_where-Above n p f (r ∷ rs) h a =
        let rest = update_where-Above (key r) p f rs h a.1 in ground (arith, h r, rest)

    find_beyond : (k n : ℕ) (rs : List R) (r : R) → Above n rs → find key k rs ≡ some r → n < k
    find_beyond k n [] r a e = absurd (ground arith)
    find_beyond k n (x ∷ rs) r a e = ground (arith, find_beyond k (key x) rs r a.1)

    -- The first match in a table of rising keys has the least key of all matches.
    pub first_where-least :
        (n : ℕ) (p : R → Bool) (rs : List R) (r : R) (k : ℕ) (x : R)
        → Above n rs
        → first_where p rs ≡ some r
        → find key k rs ≡ some x
        → p x ≡ true
        → key r ≤ k
    first_where-least n p [] r k x a e f h = absurd (ground arith)
    first_where-least n p (y ∷ rs) r k x a e f h =
        ground (arith, first_where-least (key y) p rs r k x a.1, find_beyond k (key y) rs x a.1)
