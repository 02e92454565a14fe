-- ===== src/Import/Counted.antt =====
-- What an import leaves: the counters of the job, and its items.
use tools_tele_t_ng.Base.{
  ℕ, ◌+◌, length_of, ◌≡◌, refl, sym, ap, subst, Bool, true, ◌&&◌, none, some, String, List, [], ◌∷◌,
  ◌++◌, count_where, count_where-append, count_where-zero, update_where-twice, ◌==◌, if◌then◌else◌,
  arith,
}
use tools_tele_t_ng.Models.Clock.{Moment}
use tools_tele_t_ng.Models.Status.{
  CheckStatus, ErrorType, error_text, is_found, is_not_discoverable, is_permanent_error,
  is_retry_status,
}
use tools_tele_t_ng.Models.Rows.{Key, Job, CheckItem}
use tools_tele_t_ng.Database.{Db}
use tools_tele_t_ng.JobRepo.Stats.{update_totals, is_processed_status, tally, reconcile_stats}
use tools_tele_t_ng.ResultRepo.Items.{blank_item, or_default, insert, insert_invalid, count}
use tools_tele_t_ng.Import.Create.{Sorted, insert_all, insert_invalids}

-- One more row of the job in a tally.
abbrev one_of : Bool → ℕ → ℕ
one_of b n = if b then n else 0

-- The row of a phone that is not valid.
abbrev pub invalid_row : Moment → ℕ → Key → String → CheckItem
invalid_row now id job_id raw = record (blank_item now id job_id raw) {
  status = CheckStatus.permanent_error;
  last_error_type = some (error_text ErrorType.invalid_phone);
  last_error_message = some (or_default none "Invalid phone number (not sent to Telegram)");
  completed_at = some now;
}

module _ (now job_id : ℕ) (p : CheckStatus → Bool) where
  row-tally :
      (rows : List CheckItem) (i : CheckItem)
      → i.job_id ≡ job_id
      → count_where (λ (i : CheckItem). (i.job_id == job_id) && p i.status) (rows ++ i ∷ [])
        ≡ count_where (λ (i : CheckItem). (i.job_id == job_id) && p i.status) rows
          + one_of (p i.status) 1
  row-tally rows i e =
      rw (count_where-append (λ (i : CheckItem). (i.job_id == job_id) && p i.status) rows (i ∷ []))
        (ground arith)

  insert-tally :
      (raw norm : String) (max_attempts : ℕ) (db : Db)
      → tally job_id p (insert now job_id raw norm max_attempts db).0
        ≡ tally job_id p db + one_of (p CheckStatus.pending) 1
  unfolding insert
  insert-tally raw norm max_attempts db =
      row-tally db.check_items (insert now job_id raw norm max_attempts db).1 refl

  insert_all-tally :
      (max_attempts : ℕ) (phones : List (String × String)) (db : Db)
      → tally job_id p (insert_all now job_id max_attempts phones db)
        ≡ tally job_id p db + one_of (p CheckStatus.pending) (length_of phones)
  unfolding insert_all
  insert_all-tally max_attempts [] db = ground arith
  insert_all-tally max_attempts ((raw, norm) ∷ rest) db = ground (
    arith,
    insert_all-tally max_attempts rest (insert now job_id raw norm max_attempts db).0,
    insert-tally raw norm max_attempts db,
  )

  insert_invalids-tally :
      (phones : List String) (db : Db)
      → tally job_id p (insert_invalids now job_id phones db)
        ≡ tally job_id p db + one_of (p CheckStatus.permanent_error) (length_of phones)
  unfolding insert_invalids insert_invalid
  insert_invalids-tally [] db = ground arith
  insert_invalids-tally (raw ∷ rest) db =
      let here = row-tally db.check_items (invalid_row now db.next_item_id job_id raw) refl in
      ground (arith, insert_invalids-tally rest (insert_invalid now job_id raw none db).0, here)

  -- A tally of a job that has no items.
  no_items : (db : Db) → count job_id db ≡ 0 → tally job_id p db ≡ 0
  unfolding count
  no_items db e =
      count_where-zero (λ (i : CheckItem). (i.job_id == job_id) && true)
        (λ (i : CheckItem). (i.job_id == job_id) && p i.status) db.check_items (λ i h. ground arith)
        e

  -- The tally of the items that an import leaves.
  imported-tally :
      (max_attempts : ℕ) (s : Sorted) (db : Db)
      → count job_id db ≡ 0
      → tally job_id p (
          insert_invalids now job_id s.invalid (insert_all now job_id max_attempts s.normalized db))
        ≡ one_of (p CheckStatus.pending) (length_of s.normalized)
          + one_of (p CheckStatus.permanent_error) (length_of s.invalid)
  imported-tally max_attempts s db fresh = omega (
    arith,
    insert_invalids-tally s.invalid (insert_all now job_id max_attempts s.normalized db),
    insert_all-tally max_attempts s.normalized db,
    no_items db fresh,
  )

update_totals-twice :
    (now job_id total processed found retry failed not_disc : ℕ) (db : Db)
    → update_totals now job_id total processed found retry failed not_disc
        (update_totals now job_id total processed found retry failed not_disc db)
      ≡ update_totals now job_id total processed found retry failed not_disc db
unfolding update_totals
update_totals-twice now job_id total processed found retry failed not_disc db =
    ap (λ (jobs : List Job). record db { jobs = jobs })
      (update_where-twice (λ j. j.id == job_id) _ db.jobs (λ j. refl) (λ j. refl))

-- The counters that an import writes are those that its items come to.
pub counted :
    (now job_id max_attempts : ℕ) (s : Sorted) (db : Db)
    → count job_id db ≡ 0
    → let bad = length_of s.invalid in
      let total = length_of s.normalized + bad in
      let items =
        insert_invalids now job_id s.invalid (insert_all now job_id max_attempts s.normalized db) in
      let db' = update_totals now job_id total bad 0 0 bad 0 items in
      (reconcile_stats now job_id db' ≡ db') × (count job_id db' ≡ total)
unfolding reconcile_stats count update_totals
counted now job_id max_attempts s db fresh =
    let law = λ (p : CheckStatus → Bool). imported-tally now job_id p max_attempts s db fresh in
    let items =
      insert_invalids now job_id s.invalid (insert_all now job_id max_attempts s.normalized db) in
    let bad = length_of s.invalid in
    let all : tally job_id (λ _. true) items ≡ length_of s.normalized + bad = law (λ _. true) in
    let processed : tally job_id is_processed_status items ≡ bad =
      omega (arith, law is_processed_status) in
    let found : tally job_id is_found items ≡ 0 = omega (arith, law is_found) in
    let retry : tally job_id is_retry_status items ≡ 0 = omega (arith, law is_retry_status) in
    let failed : tally job_id is_permanent_error items ≡ bad =
      omega (arith, law is_permanent_error) in
    let not_disc : tally job_id is_not_discoverable items ≡ 0 =
      omega (arith, law is_not_discoverable) in
    let total = length_of s.normalized + bad in
    (
      subst {A = ℕ × ℕ × ℕ × ℕ × ℕ × ℕ}
          (λ (a, b, c, d, e, f).
            update_totals now job_id a b c d e f
              (update_totals now job_id total bad 0 0 bad 0 items)
            ≡ update_totals now job_id total bad 0 0 bad 0 items)
          (λ i.
            (sym all i, sym processed i, sym found i, sym retry i, sym failed i, sym not_disc i))
          (update_totals-twice now job_id total bad 0 0 bad 0 items),
      all,
    )
