-- ===== src/Import/Dealt.antt =====
-- How an import is dealt out: nothing is lost, nothing is doubled, and the accounts get their share.
use text.Mathlib.Text.{◌==◌ as ◌≈◌}
use tools_tele_t_ng.Base.{
  ℕ, suc, zero, ◌+◌, ◌*◌, ◌/◌, ◌%◌, length_of, ◌≡◌, refl, ◌≤◌, ◌<◌, ◌∙◌, ap, subst, ==_iff, Bool,
  String, List, [], ◌∷◌, count_where, count_where-append, length_of-append, ltb, ◌==◌,
  if◌then◌else◌, arith, Bool-cases, inl, inr,
}
use Prim.Native.Nat.{min}
use native.Mathlib.Nat.{
  div-add-mod, mul-add-div, mul-add-mod_self_left, div_self, mod_self, mod-lt, le-div_iff_mul-le,
  div-eq_of_lt, mod-eq_of_lt,
}
use tools_tele_t_ng.Models.Rows.{Key}
use tools_tele_t_ng.Import.Deal.{Bucket, take, empty_buckets, put, deal, distribute}

-- How many values the bucket at a position holds.
abbrev pub size : ℕ → List Bucket → ℕ
size n [] = 0
size zero ((k, values) ∷ rest) = length_of values
size (suc n) (b ∷ rest) = size n rest

-- How often a value stands in the buckets.
abbrev pub dealt : String → List Bucket → ℕ
dealt v [] = 0
dealt v ((k, values) ∷ rest) = count_where (λ s. s ≈ v) values + dealt v rest

abbrev one_if : Bool → ℕ
one_if b = if b then 1 else 0

size-put :
    (i j : ℕ) (v : String) (bs : List Bucket)
    → i < length_of bs
    → size j (put i v bs) ≡ size j bs + one_if (i == j)
unfolding put
size-put i j v [] h = absurd (omega arith)
size-put zero zero v ((k, values) ∷ rest) h = ground (arith, length_of-append values (v ∷ []))
size-put zero (suc j) v ((k, values) ∷ rest) h = ground arith
size-put (suc i) zero v ((k, values) ∷ rest) h = ground arith
size-put (suc i) (suc j) v ((k, values) ∷ rest) h = ground (arith, size-put i j v rest)

length-put : (i : ℕ) (v : String) (bs : List Bucket) → length_of (put i v bs) ≡ length_of bs
unfolding put
length-put i v [] = refl
length-put zero v (b ∷ rest) = refl
length-put (suc i) v (b ∷ rest) = ap suc (length-put i v rest)

dealt-put :
    (i : ℕ) (v x : String) (bs : List Bucket)
    → i < length_of bs
    → dealt x (put i v bs) ≡ dealt x bs + one_if (v ≈ x)
unfolding put
dealt-put i v x [] h = absurd (omega arith)
dealt-put zero v x ((k, values) ∷ rest) h =
    ground (arith, count_where-append (λ s. s ≈ x) values (v ∷ []))
dealt-put (suc i) v x ((k, values) ∷ rest) h = ground (arith, dealt-put i v x rest)

-- One value more moves the mark between the fuller and the emptier buckets by one.
share_step :
    (n i j : ℕ)
    → 0 < n
    → j < n
    → suc i / n + one_if (ltb j (suc i % n)) ≡ i / n + one_if (ltb j (i % n)) + one_if (i % n == j)
share_step n i j h k =
    let q = i / n in
    let r = i % n in
    let whole : suc i ≡ n * q + suc r = omega (arith, div-add-mod i n) in
    let div : suc i / n ≡ q + suc r / n = ap (λ m. m / n) whole ∙ mul-add-div h q (suc r) in
    let rem : suc i % n ≡ suc r % n = ap (λ m. m % n) whole ∙ mul-add-mod_self_left n q (suc r) in
    elim (Bool-cases (suc r == n)) [
      | inl last ↦
          let full : suc r ≡ n = (==_iff (suc r) n).0 last in
          ground
            (arith, div, rem, ap (λ m. m / n) full ∙ div_self h, ap (λ m. m % n) full ∙ mod_self n)
      | inr more ↦
          let less : suc r < n = ground (arith, mod-lt i h) in
          ground (arith, div, rem, div-eq_of_lt less, mod-eq_of_lt less)
    ]

module _ (n : ℕ) (some_accounts : 0 < n) where
  -- Each bucket has its share of what has been dealt.
  abbrev pub HasShare : ℕ → ℕ → List Bucket → Type 0
  HasShare index j bs = size j bs ≡ index / n + one_if (ltb j (index % n))

  deal-length :
      (inputs : List String) (index : ℕ) (bs : List Bucket)
      → length_of (deal n index inputs bs) ≡ length_of bs
  unfolding deal
  deal-length [] index bs = refl
  deal-length (v ∷ rest) index bs =
      deal-length rest (suc index) (put (index % n) v bs) ∙ length-put (index % n) v bs

  deal-HasShare :
      (inputs : List String) (index j : ℕ) (bs : List Bucket)
      → length_of bs ≡ n
      → j < n
      → HasShare index j bs
      → HasShare (index + length_of inputs) j (deal n index inputs bs)
  unfolding deal
  deal-HasShare [] index j bs l h share = ground arith
  deal-HasShare (v ∷ rest) index j bs l h share =
      let spot : index % n < length_of bs = omega (arith, mod-lt index some_accounts) in
      let next : HasShare (suc index) j (put (index % n) v bs) =
        omega (arith, size-put (index % n) j v bs spot, share_step n index j some_accounts h) in
      let end =
        deal-HasShare rest (suc index) j (put (index % n) v bs) (length-put (index % n) v bs ∙ l) h
          next in
      let moved : suc index + length_of rest ≡ index + suc (length_of rest) = omega arith in
      subst (λ m. HasShare m j (deal n (suc index) rest (put (index % n) v bs))) moved end

  deal-dealt :
      (inputs : List String) (index : ℕ) (x : String) (bs : List Bucket)
      → length_of bs ≡ n
      → dealt x (deal n index inputs bs) ≡ dealt x bs + count_where (λ s. s ≈ x) inputs
  unfolding deal
  deal-dealt [] index x bs l = omega arith
  deal-dealt (v ∷ rest) index x bs l =
      let spot : index % n < length_of bs = omega (arith, mod-lt index some_accounts) in
      ground (
        arith,
        deal-dealt rest (suc index) x (put (index % n) v bs) (length-put (index % n) v bs ∙ l),
        dealt-put (index % n) v x bs spot,
      )

length-empty_buckets : (ids : List Key) → length_of (empty_buckets ids) ≡ length_of ids
unfolding empty_buckets
length-empty_buckets [] = refl
length-empty_buckets (k ∷ ks) = ap suc (length-empty_buckets ks)

size-empty_buckets : (j : ℕ) (ids : List Key) → size j (empty_buckets ids) ≡ 0
unfolding empty_buckets
size-empty_buckets j [] = refl
size-empty_buckets zero (k ∷ ks) = refl
size-empty_buckets (suc j) (k ∷ ks) = size-empty_buckets j ks

dealt-empty_buckets : (x : String) (ids : List Key) → dealt x (empty_buckets ids) ≡ 0
unfolding empty_buckets
dealt-empty_buckets x [] = refl
dealt-empty_buckets x (k ∷ ks) = omega (arith, dealt-empty_buckets x ks)

length-take {ℓ} : {A : Type ℓ} (n : ℕ) (xs : List A) → length_of (take n xs) ≡ min n (length_of xs)
length-take zero xs = ground arith
length-take (suc n) [] = ground arith
length-take (suc n) (x ∷ xs) = ground (arith, length-take n xs)

-- What is shared out over `n` accounts.
abbrev pub IsShared : ℕ → List String → List Bucket → Type 0
IsShared n inputs buckets =
    (length_of buckets ≡ n)
    × ((j : ℕ)
        → j < n
        → (size j buckets ≡ length_of inputs / n + one_if (ltb j (length_of inputs % n)))
          × (0 < size j buckets))
    × ((x : String) → dealt x buckets ≡ count_where (λ s. s ≈ x) inputs)

shared :
    (active : List Key) (inputs : List String)
    → 0 < length_of active
    → length_of active ≤ length_of inputs
    → IsShared (length_of active) inputs (deal (length_of active) 0 inputs (empty_buckets active))
shared active inputs pos enough =
    let n = length_of active in
    let m = length_of inputs in
    let one_each : 1 ≤ m / n = (le-div_iff_mul-le pos).1 (omega arith) in
    let start : (j : ℕ) → j < n → HasShare n pos 0 j (empty_buckets active) =
      λ j h. ground (arith, size-empty_buckets j active, div-eq_of_lt pos, mod-eq_of_lt pos) in
    let end : (j : ℕ) → j < n → HasShare n pos m j (deal n 0 inputs (empty_buckets active)) = λ j h.
      subst (λ k. HasShare n pos k j (deal n 0 inputs (empty_buckets active))) (omega arith)
        (deal-HasShare n pos inputs 0 j (empty_buckets active) (length-empty_buckets active) h
          (start j h)) in
    (
      deal-length n pos inputs 0 (empty_buckets active) ∙ length-empty_buckets active,
      λ j h. (end j h, omega (arith, end j h, one_each)),
      λ x. omega (
        arith,
        deal-dealt n pos inputs 0 x (empty_buckets active) (length-empty_buckets active),
        dealt-empty_buckets x active,
      ),
    )

-- An import is shared out fairly, and whole: of `m` inputs over `n` accounts in use, each account gets
-- `m / n`, and the first `m % n` accounts one more; so no account that is used is left without one.
-- Every input goes to the accounts together exactly as often as it was given.
pub distribute_lem :
    (ids : List Key) (inputs : List String)
    → 0 < length_of ids
    → 0 < length_of inputs
    → IsShared (min (length_of ids) (length_of inputs)) inputs (distribute ids inputs)
unfolding distribute
distribute_lem ids inputs some_ids some_inputs =
    let active = take (min (length_of ids) (length_of inputs)) ids in
    let used : length_of active ≡ min (length_of ids) (length_of inputs) =
      ground (arith, length-take (min (length_of ids) (length_of inputs)) ids) in
    subst (λ n. IsShared n inputs (deal (length_of active) 0 inputs (empty_buckets active))) used
      (shared active inputs (ground arith) (ground arith))
