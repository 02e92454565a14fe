-- ===== src/Models/Privacy.antt =====
-- What a masked phone still shows.
use tools_tele_t_ng.Base.{
  false, ℕ, zero, suc, ◌+◌, ◌-◌, ◌≤◌, ◌≡◌, refl, ap, ap₂, ◌∙◌, Bool, List, [], ◌∷◌, ◌++◌,
  count_where, arith, ◌<◌, leb,
}
use tools_tele_t_ng.Models.Phone.{length, take, drop, stars, mask_phone}

length-append : (xs ys : List ℕ) → length (xs ++ ys) ≡ length xs + length ys
length-append [] ys = omega arith
length-append (x ∷ xs) ys = omega (arith, length-append xs ys)

length-take_le : (n : ℕ) (xs : List ℕ) → n ≤ length xs → length (take n xs) ≡ n
length-take_le zero xs h = refl
length-take_le (suc n) [] h = elim h [ ]
length-take_le (suc n) (x ∷ xs) h = ap suc (length-take_le n xs (omega arith))

length-drop : (n : ℕ) (xs : List ℕ) → length (drop n xs) ≡ length xs - n
length-drop zero xs = omega arith
length-drop (suc n) [] = omega arith
length-drop (suc n) (x ∷ xs) = omega (arith, length-drop n xs)

take-append : (xs ys : List ℕ) → take (length xs) (xs ++ ys) ≡ xs
take-append [] ys = refl
take-append (x ∷ xs) ys = ap (◌∷◌ x) (take-append xs ys)

drop-append : (xs ys : List ℕ) → drop (length xs) (xs ++ ys) ≡ ys
drop-append [] ys = refl
drop-append (x ∷ xs) ys = drop-append xs ys

take-append-drop : (n : ℕ) (xs : List ℕ) → take n xs ++ drop n xs ≡ xs
take-append-drop zero xs = refl
take-append-drop (suc n) [] = refl
take-append-drop (suc n) (x ∷ xs) = ap (◌∷◌ x) (take-append-drop n xs)

count_where-le-length : (p : ℕ → Bool) (xs : List ℕ) → count_where p xs ≤ length xs
count_where-le-length p [] = omega arith
count_where-le-length p (x ∷ xs) = ground (arith, count_where-le-length p xs)

lt→leb : (a b : ℕ) → a < b → leb b a ≡ false
lt→leb a b h = ground arith

-- Reading a logged phone past the four stars.
abbrev pub unmask : List ℕ → List ℕ
unmask logged = take (length logged - 8) logged ++ drop (length logged - 4) logged

take-append_at : (n : ℕ) (xs ys : List ℕ) → n ≡ length xs → take n (xs ++ ys) ≡ xs
take-append_at n xs ys e = rw e (take-append xs ys)

drop-append_at : (n : ℕ) (xs ys : List ℕ) → n ≡ length xs → drop n (xs ++ ys) ≡ ys
drop-append_at n xs ys e = rw e (drop-append xs ys)

append_assoc : (xs ys zs : List ℕ) → (xs ++ ys) ++ zs ≡ xs ++ (ys ++ zs)
append_assoc [] ys zs = refl
append_assoc (x ∷ xs) ys zs = ap (◌∷◌ x) (append_assoc xs ys zs)

-- The layout of a masked phone: a prefix, four stars and a suffix of four.
module _ (pre suf : List ℕ) (short : length suf ≡ 4) where
  length-masked : length (pre ++ (stars ++ suf)) ≡ length pre + 8
  length-masked = omega (arith, length-append pre (stars ++ suf))

  drop-masked : (n : ℕ) → n ≡ length pre + 4 → drop n (pre ++ (stars ++ suf)) ≡ suf
  drop-masked n e =
      rw (← append_assoc pre stars suf)
        (drop-append_at n (pre ++ stars) suf (omega (arith, length-append pre stars)))

  unmask-masked : unmask (pre ++ (stars ++ suf)) ≡ pre ++ suf
  unmask-masked =
      ap₂ ◌++◌ (take-append_at _ pre (stars ++ suf) (omega (arith, length-masked)))
        (drop-masked _ (omega (arith, length-masked)))

-- A phone of more than four digits can be read back from what the mask shows, and the shown text
-- is four characters longer than the phone: no digit is hidden.
mask_phone-reveals :
    (is_digit : ℕ → Bool) (phone : List ℕ)
    → 4 < count_where is_digit phone
    → (unmask (mask_phone is_digit phone) ≡ phone)
      × (length (mask_phone is_digit phone) ≡ length phone + 4)
unfolding mask_phone
mask_phone-reveals is_digit phone h =
    let n = length phone - 4 in
    let long = count_where-le-length is_digit phone in
    let four : length (drop n phone) ≡ 4 = omega (arith, length-drop n phone, long) in
    rw (lt→leb 4 _ h) (
      unmask-masked (take n phone) (drop n phone) four ∙ take-append-drop n phone,
      omega (arith, length-masked (take n phone) (drop n phone) four, length-take_le n phone, long),
    )
