-- ===== src/Import/Sorting.antt =====
-- What the loop over the phones of `_create_job_with_numbers` collects.
use text.Mathlib.Text.{◌==◌ as ◌≈◌}
use text.Mathlib.TextEquality.{eq_iff}
use tools_tele_t_ng.Base.{
  ◌+◌, length_of, length_of-append, ◌≡◌, refl, sym, ◌∙◌, true, select_where, is_null, ◌≤◌, false,
  ◌||◌, Option, some, String, List, [], ◌∷◌, ◌++◌, arith, Option-cases, Bool-cases, inl, inr,
}
use tools_tele_t_ng.Import.Create.{Sorted, is_seen, sort_phone, sort_phones}
use tools_tele_t_ng.Import.Contents.{append_one, append_nil}

-- No two phones have one normal form.
abbrev pub IsDistinct : List (String × String) → Type 0
IsDistinct [] = Unit {0}
IsDistinct ((raw, n) ∷ rest) = (is_seen n rest ≡ false) × IsDistinct rest

-- Each phone that is kept has the normal form that is kept with it.
abbrev pub AreNormal : (String → Option String) → List (String × String) → Type 0
AreNormal normalize [] = Unit {0}
AreNormal normalize ((raw, n) ∷ rest) = (normalize raw ≡ some n) × AreNormal normalize rest

-- The normal form of each phone that has one is kept.
abbrev pub AreKept : (String → Option String) → List String → List (String × String) → Type 0
AreKept normalize [] kept = Unit {0}
AreKept normalize (raw ∷ rest) kept =
    ((n : String) → normalize raw ≡ some n → is_seen n kept ≡ true) × AreKept normalize rest kept

is_seen-append :
    (m raw n : String) (l : List (String × String))
    → is_seen m (l ++ (raw, n) ∷ []) ≡ is_seen m l || (n ≈ m)
is_seen-append m raw n [] = ground arith
is_seen-append m raw n ((r, k) ∷ rest) = ground (arith, is_seen-append m raw n rest)

append-IsDistinct :
    (raw n : String) (l : List (String × String))
    → is_seen n l ≡ false
    → IsDistinct l
    → IsDistinct (l ++ (raw, n) ∷ [])
append-IsDistinct raw n [] e d = (refl, tt)
append-IsDistinct raw n ((r, k) ∷ rest) e d =
    ground
      (arith, append-IsDistinct raw n rest, is_seen-append k raw n rest, eq_iff n k, eq_iff k n)

module _ (normalize : String → Option String) where
  append-AreNormal :
      (raw n : String) (l : List (String × String))
      → normalize raw ≡ some n
      → AreNormal normalize l
      → AreNormal normalize (l ++ (raw, n) ∷ [])
  append-AreNormal raw n [] good d = (good, tt)
  append-AreNormal raw n ((r, k) ∷ rest) good d = (d.0, append-AreNormal raw n rest good d.1)

  sort_phone-IsDistinct :
      (raw : String) (acc : Sorted)
      → IsDistinct acc.normalized
      → IsDistinct (sort_phone normalize raw acc).normalized
  unfolding sort_phone
  sort_phone-IsDistinct raw acc d = elim (Option-cases (normalize raw)) [
    | inl bad ↦ rw (bad, sort_phone) d
    | inr (n, good) ↦ elim (Bool-cases (is_seen n acc.normalized)) [
      | inl seen ↦ rw (good, sort_phone) (rw seen d)
      | inr new ↦ rw (good, sort_phone) (rw new (append-IsDistinct raw n acc.normalized new d))
    ]
  ]

  pub sort_phones-IsDistinct :
      (raws : List String) (acc : Sorted)
      → IsDistinct acc.normalized
      → IsDistinct (sort_phones normalize raws acc).normalized
  unfolding sort_phones
  sort_phones-IsDistinct [] acc d = d
  sort_phones-IsDistinct (raw ∷ rest) acc d =
      sort_phones-IsDistinct rest (sort_phone normalize raw acc) (sort_phone-IsDistinct raw acc d)

  sort_phone-AreNormal :
      (raw : String) (acc : Sorted)
      → AreNormal normalize acc.normalized
      → AreNormal normalize (sort_phone normalize raw acc).normalized
  unfolding sort_phone
  sort_phone-AreNormal raw acc d = elim (Option-cases (normalize raw)) [
    | inl bad ↦ rw (bad, sort_phone) d
    | inr (n, good) ↦ elim (Bool-cases (is_seen n acc.normalized)) [
      | inl seen ↦ rw (good, sort_phone) (rw seen d)
      | inr new ↦ rw (good, sort_phone) (rw new (append-AreNormal raw n acc.normalized good d))
    ]
  ]

  pub sort_phones-AreNormal :
      (raws : List String) (acc : Sorted)
      → AreNormal normalize acc.normalized
      → AreNormal normalize (sort_phones normalize raws acc).normalized
  unfolding sort_phones
  sort_phones-AreNormal [] acc d = d
  sort_phones-AreNormal (raw ∷ rest) acc d =
      sort_phones-AreNormal rest (sort_phone normalize raw acc) (sort_phone-AreNormal raw acc d)

  -- What is seen stays seen.
  sort_phone-seen :
      (m raw : String) (acc : Sorted)
      → is_seen m acc.normalized ≡ true
      → is_seen m (sort_phone normalize raw acc).normalized ≡ true
  unfolding sort_phone
  sort_phone-seen m raw acc d = elim (Option-cases (normalize raw)) [
    | inl bad ↦ rw (bad, sort_phone) d
    | inr (n, good) ↦ elim (Bool-cases (is_seen n acc.normalized)) [
      | inl seen ↦ rw (good, sort_phone) (rw seen d)
      | inr new ↦
          rw (good, sort_phone) (rw new (ground (arith, is_seen-append m raw n acc.normalized, d)))
    ]
  ]

  sort_phones-seen :
      (m : String) (raws : List String) (acc : Sorted)
      → is_seen m acc.normalized ≡ true
      → is_seen m (sort_phones normalize raws acc).normalized ≡ true
  unfolding sort_phones
  sort_phones-seen m [] acc d = d
  sort_phones-seen m (raw ∷ rest) acc d =
      sort_phones-seen m rest (sort_phone normalize raw acc) (sort_phone-seen m raw acc d)

  sort_phone-keeps :
      (raw n : String) (acc : Sorted)
      → normalize raw ≡ some n
      → is_seen n (sort_phone normalize raw acc).normalized ≡ true
  unfolding sort_phone
  sort_phone-keeps raw n acc good = elim (Bool-cases (is_seen n acc.normalized)) [
    | inl seen ↦ rw (good, sort_phone) (rw seen seen)
    | inr new ↦
        rw (good, sort_phone)
          (rw new (ground (arith, is_seen-append n raw n acc.normalized, eq_iff n n)))
  ]

  pub sort_phones-AreKept :
      (raws : List String) (acc : Sorted)
      → AreKept normalize raws (sort_phones normalize raws acc).normalized
  unfolding sort_phones
  sort_phones-AreKept [] acc = tt
  sort_phones-AreKept (raw ∷ rest) acc = (
    λ n good.
        sort_phones-seen n rest (sort_phone normalize raw acc) (sort_phone-keeps raw n acc good),
    sort_phones-AreKept rest (sort_phone normalize raw acc),
  )

  sort_phone-invalid :
      (raw : String) (rest : List String) (acc : Sorted)
      → (sort_phone normalize raw acc).invalid ++ select_where (λ raw. is_null (normalize raw)) rest
        ≡ acc.invalid ++ select_where (λ raw. is_null (normalize raw)) (raw ∷ rest)
  unfolding sort_phone
  sort_phone-invalid raw rest acc = elim (Option-cases (normalize raw)) [
    | inl bad ↦ rw (bad, sort_phone) (append_one acc.invalid raw _)
    | inr (n, good) ↦ elim (Bool-cases (is_seen n acc.normalized)) [
      | inl seen ↦ rw (good, sort_phone) (rw seen refl)
      | inr new ↦ rw (good, sort_phone) (rw new refl)
    ]
  ]

  pub sort_phones-invalid :
      (raws : List String) (acc : Sorted)
      → (sort_phones normalize raws acc).invalid
        ≡ acc.invalid ++ select_where (λ raw. is_null (normalize raw)) raws
  unfolding sort_phones
  sort_phones-invalid [] acc = sym (append_nil acc.invalid)
  sort_phones-invalid (raw ∷ rest) acc =
      sort_phones-invalid rest (sort_phone normalize raw acc) ∙ sort_phone-invalid raw rest acc

  -- Nothing is counted twice.
  sort_phone-le :
      (raw : String) (acc : Sorted)
      → length_of (sort_phone normalize raw acc).normalized
          + length_of (sort_phone normalize raw acc).invalid
        ≤ length_of acc.normalized + length_of acc.invalid + 1
  unfolding sort_phone
  sort_phone-le raw acc = elim (Option-cases (normalize raw)) [
    | inl bad ↦ rw (bad, sort_phone) (omega (arith, length_of-append acc.invalid (raw ∷ [])))
    | inr (n, good) ↦ elim (Bool-cases (is_seen n acc.normalized)) [
      | inl seen ↦ rw (good, sort_phone) (rw seen (omega arith))
      | inr new ↦
          rw (good, sort_phone)
            (rw new (omega (arith, length_of-append acc.normalized ((raw, n) ∷ []))))
    ]
  ]

  pub sort_phones-le :
      (raws : List String) (acc : Sorted)
      → length_of (sort_phones normalize raws acc).normalized
          + length_of (sort_phones normalize raws acc).invalid
        ≤ length_of acc.normalized + length_of acc.invalid + length_of raws
  unfolding sort_phones
  sort_phones-le [] acc = omega arith
  sort_phones-le (raw ∷ rest) acc =
      omega (arith, sort_phones-le rest (sort_phone normalize raw acc), sort_phone-le raw acc)
