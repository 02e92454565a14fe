-- ===== src/Import/Contents.antt =====
-- The items that an import leaves, one by one.
use tools_tele_t_ng.Base.{
  ℕ, ◌≡◌, refl, sym, ap, ◌∙◌, true, ◌&&◌, Option, none, some, String, List, [], ◌∷◌, ◌++◌, map,
  count_where, select_where, ◌==◌, arith, Bool-cases, inl, inr,
}
use tools_tele_t_ng.Models.Status.{CheckStatus}
use tools_tele_t_ng.Models.Rows.{CheckItem}
use tools_tele_t_ng.Database.{Db}
use tools_tele_t_ng.ResultRepo.Items.{insert, insert_invalid, count, all_items}
use tools_tele_t_ng.Import.Counted.{invalid_row}
use tools_tele_t_ng.Import.Create.{Sorted, insert_all, insert_invalids}

-- What an item says of a phone: its text, its normal form and its status.
abbrev pub told : CheckItem → String × Option String × CheckStatus
told i = (i.original_phone, i.normalized_phone, i.status)

abbrev pub valid_phone : String × String → String × Option String × CheckStatus
valid_phone (raw, norm) = (raw, some norm, CheckStatus.pending)

abbrev pub invalid_phone : String → String × Option String × CheckStatus
invalid_phone raw = (raw, none, CheckStatus.permanent_error)

module _ {A : Type 0} where
  pub append_one : (xs : List A) (x : A) (ys : List A) → (xs ++ x ∷ []) ++ ys ≡ xs ++ x ∷ ys
  append_one [] x ys = refl
  append_one (z ∷ xs) x ys = ap (◌∷◌ z) (append_one xs x ys)

  pub append_nil : (xs : List A) → xs ++ [] ≡ xs
  append_nil [] = refl
  append_nil (x ∷ xs) = ap (◌∷◌ x) (append_nil xs)

module _ (now job_id : ℕ) where
  row-told :
      (rows : List CheckItem) (i : CheckItem)
      → i.job_id ≡ job_id
      → map told (select_where (λ (i : CheckItem). i.job_id == job_id) (rows ++ i ∷ []))
        ≡ map told (select_where (λ (i : CheckItem). i.job_id == job_id) rows) ++ told i ∷ []
  row-told [] i e = ground arith
  row-told (r ∷ rows) i e = elim (Bool-cases (r.job_id == job_id)) [
    | inl mine ↦ rw mine (ap (◌∷◌ (told r)) (row-told rows i e))
    | inr other ↦ rw other (row-told rows i e)
  ]

  insert_all-told :
      (max_attempts : ℕ) (phones : List (String × String)) (db : Db)
      → map told (all_items job_id (insert_all now job_id max_attempts phones db))
        ≡ map told (all_items job_id db) ++ map valid_phone phones
  unfolding insert_all insert all_items
  insert_all-told max_attempts [] db = sym (append_nil (map told (all_items job_id db)))
  insert_all-told max_attempts ((raw, norm) ∷ rest) db =
      let (db', i) = insert now job_id raw norm max_attempts db in
      insert_all-told max_attempts rest db'
      ∙ ap (λ ts. ts ++ map valid_phone rest) (row-told db.check_items i refl)
      ∙ append_one (map told (all_items job_id db)) (told i) (map valid_phone rest)

  insert_invalids-told :
      (phones : List String) (db : Db)
      → map told (all_items job_id (insert_invalids now job_id phones db))
        ≡ map told (all_items job_id db) ++ map invalid_phone phones
  unfolding insert_invalids insert_invalid all_items
  insert_invalids-told [] db = sym (append_nil (map told (all_items job_id db)))
  insert_invalids-told (raw ∷ rest) db =
      let db' = (insert_invalid now job_id raw none db).0 in
      let i = invalid_row now db.next_item_id job_id raw in
      insert_invalids-told rest db'
      ∙ ap (λ ts. ts ++ map invalid_phone rest) (row-told db.check_items i refl)
      ∙ append_one (map told (all_items job_id db)) (told i) (map invalid_phone rest)

  no_rows :
      (rows : List CheckItem)
      → count_where (λ (i : CheckItem). (i.job_id == job_id) && true) rows ≡ 0
      → select_where (λ (i : CheckItem). i.job_id == job_id) rows ≡ []
  no_rows [] e = refl
  no_rows (r ∷ rows) e = ground (arith, no_rows rows)

  -- The items of a job that had none.
  pub imported-told :
      (max_attempts : ℕ) (s : Sorted) (db : Db)
      → count job_id db ≡ 0
      → map told (
          all_items job_id (
            insert_invalids now job_id s.invalid
              (insert_all now job_id max_attempts s.normalized db)))
        ≡ map valid_phone s.normalized ++ map invalid_phone s.invalid
  unfolding count all_items
  imported-told max_attempts s db fresh =
      insert_invalids-told s.invalid (insert_all now job_id max_attempts s.normalized db)
      ∙ ap (λ ts. ts ++ map invalid_phone s.invalid)
          (insert_all-told max_attempts s.normalized db
            ∙ ap (λ rows. map told rows ++ map valid_phone s.normalized)
                (no_rows db.check_items fresh))
