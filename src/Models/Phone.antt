-- ===== src/Models/Phone.antt =====
-- `mask_phone` of telegram_phone_number_checker/models.py, over the code points of a phone.
use tools_tele_t_ng.Base.{
  ℕ, zero, suc, ◌-◌, Bool, List, [], ◌∷◌, ◌++◌, leb, if◌then◌else◌, count_where,
}

abbrev pub length : List ℕ → ℕ
length [] = 0
length (x ∷ xs) = suc (length xs)

abbrev pub take : ℕ → List ℕ → List ℕ
take zero xs = []
take (suc n) [] = []
take (suc n) (x ∷ xs) = x ∷ take n xs

abbrev pub drop : ℕ → List ℕ → List ℕ
drop zero xs = xs
drop (suc n) [] = []
drop (suc n) (x ∷ xs) = drop n xs

abbrev pub stars : List ℕ
stars = b'*' ∷ b'*' ∷ b'*' ∷ b'*' ∷ []

-- `is_digit` is Python's `str.isdigit` on one character.
unfoldable pub mask_phone : (ℕ → Bool) → List ℕ → List ℕ
mask_phone is_digit phone =
    if leb (count_where is_digit phone) 4
    then phone
    else take (length phone - 4) phone ++ (stars ++ drop (length phone - 4) phone)
