-- ===== src/Base/Columns.antt =====
-- Nullable columns. SQL compares a NULL to nothing: such a test is never true in a WHERE clause.
use Prim.Native.Nat.{ℕ}
use mathlib.Core.Bool.{Bool, true, false}
use mathlib.Core.Option.{Option, none, some}
use tools_tele_t_ng.Base.Tests.{ltb, leb, ◌==◌}

-- `column = value`
abbrev pub holds : Option ℕ → ℕ → Bool
holds none v = false
holds (some c) v = c == v

-- `column > moment`
abbrev pub after : Option ℕ → ℕ → Bool
after none t = false
after (some c) t = ltb t c

-- `column <= moment`
abbrev pub due : Option ℕ → ℕ → Bool
due none t = false
due (some c) t = leb c t

-- `column IS NULL`
abbrev pub is_null {ℓ} : {A : Type ℓ} → Option A → Bool
is_null none = true
is_null (some _) = false

-- `COALESCE(?, column)`
abbrev pub coalesce {ℓ} : {A : Type ℓ} → Option A → A → A
coalesce none old = old
coalesce (some new) old = new
