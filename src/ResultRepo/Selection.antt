-- ===== src/ResultRepo/Selection.antt =====
-- The order of the items, and the choice of the next one.
use tools_tele_t_ng.Base.{
  ℕ, suc, ◌≡◌, refl, ◌≤◌, ◌<◌, Bool, true, false, ◌&&◌, some, List, [], ◌∷◌, ◌++◌, find, IsUnique,
  update_where, Above, Above-IsUnique, update_where-Above, first_where-find_self, first_where-holds,
  first_where-least, ◌==◌, arith,
}
use tools_tele_t_ng.Models.Clock.{Moment}
use tools_tele_t_ng.Models.Status.{is_terminal_status}
use tools_tele_t_ng.Models.Rows.{CheckItem}
use tools_tele_t_ng.Database.{Db, item_key, job_key}
use tools_tele_t_ng.JobRepo.JobLease.{is_job_owned_by}
use tools_tele_t_ng.ResultRepo.Items.{insert, insert_invalid, is_selectable, next_due_item}
use tools_tele_t_ng.ResultRepo.Claims.{
  worker_of, mark_processing, mark_in_flight_unknown, recover_interrupted,
}
use tools_tele_t_ng.ResultRepo.Results.{save_result}
use tools_tele_t_ng.ResultRepo.Fencing.{mark_processing_lem, job_is_leased-eq-is_job_owned_by}
use tools_tele_t_ng.ResultRepo.Lifecycle.{
  ItemCall, imports, imports_invalid, claims, settles, quarantines, recovers, item_call,
  run_item_calls,
}

-- The largest number is below the next one that the table gives.
abbrev IsBelow : ℕ → List CheckItem → Type 0
IsBelow n [] = Unit {0}
IsBelow n (i ∷ is) = (i.id < n) × IsBelow n is

-- The items stand in the order of their numbers, and the next number is new.
pub record IsOrdered (db : Db) : Type 0 where
  pub rising : Above item_key 0 db.check_items
  pub fresh : IsBelow db.next_item_id db.check_items
  pub positive : 0 < db.next_item_id

IsBelow-append :
    (n : ℕ) (is : List CheckItem) (i : CheckItem)
    → i.id ≡ n
    → IsBelow n is
    → IsBelow (suc n) (is ++ i ∷ [])
IsBelow-append n [] i e b = (omega arith, tt)
IsBelow-append n (x ∷ is) i e b = (omega arith, IsBelow-append n is i e b.1)

Above-append :
    (m n : ℕ) (is : List CheckItem) (i : CheckItem)
    → m < n
    → i.id ≡ n
    → Above item_key m is
    → IsBelow n is
    → Above item_key m (is ++ i ∷ [])
Above-append m n [] i h e a b = (omega arith, tt)
Above-append m n (x ∷ is) i h e a b = (a.0, Above-append x.id n is i b.0 e a.1 b.1)

update_where-IsBelow :
    (n : ℕ) (p : CheckItem → Bool) (f : CheckItem → CheckItem) (is : List CheckItem)
    → ((i : CheckItem) → item_key (f i) ≡ item_key i)
    → IsBelow n is
    → IsBelow n (update_where p f is)
update_where-IsBelow n p f [] h b = tt
update_where-IsBelow n p f (i ∷ is) h b =
    let rest = update_where-IsBelow n p f is h b.1 in ground (arith, h i, rest)

module _ (db : Db) (o : IsOrdered db) where
  updates :
      (p : CheckItem → Bool) (f : CheckItem → CheckItem)
      → ((i : CheckItem) → item_key (f i) ≡ item_key i)
      → IsOrdered (record db { check_items = update_where p f db.check_items })
  updates p f h = record {
    rising = update_where-Above item_key 0 p f db.check_items h o.rising;
    fresh = update_where-IsBelow db.next_item_id p f db.check_items h o.fresh;
    positive = o.positive;
  }

  adds :
      (i : CheckItem)
      → i.id ≡ db.next_item_id
      → IsOrdered
          (record db { check_items = db.check_items ++ i ∷ []; next_item_id = suc db.next_item_id })
  adds i e = record {
    rising = Above-append 0 db.next_item_id db.check_items i o.positive e o.rising o.fresh;
    fresh = IsBelow-append db.next_item_id db.check_items i e o.fresh;
    positive = omega arith;
  }

item_call-IsOrdered :
    (now : Moment) (c : ItemCall) (db : Db) → IsOrdered db → IsOrdered (item_call now c db)
unfolding item_call insert insert_invalid mark_processing save_result mark_in_flight_unknown
    recover_interrupted
item_call-IsOrdered now (imports job original normalized max) db o = adds db o _ refl
item_call-IsOrdered now (imports_invalid job original message) db o = adds db o _ refl
item_call-IsOrdered now (claims token item_id owner) db o = updates db o _ _ (λ i. refl)
item_call-IsOrdered now (settles item_id outcome token owner) db o = updates db o _ _ (λ i. refl)
item_call-IsOrdered now (quarantines item_id token after) db o = updates db o _ _ (λ i. refl)
item_call-IsOrdered now (recovers job after) db o = updates db o _ _ (λ i. refl)

-- The numbers of the items stay distinct and in the order of the rows through every sequence of
-- imports, claims, writes and quarantines.
run_item_calls-IsOrdered :
    (cs : List (Moment × ItemCall)) (db : Db)
    → IsOrdered db
    → IsOrdered (run_item_calls cs db) × IsUnique item_key (run_item_calls cs db).check_items
run_item_calls-IsOrdered [] db o = (o, Above-IsUnique item_key 0 db.check_items o.rising)
run_item_calls-IsOrdered ((now, c) ∷ cs) db o =
    run_item_calls-IsOrdered cs (item_call now c db) (item_call-IsOrdered now c db o)

-- The next item is the due item of the job with the least number; it is not settled; and a worker
-- that owns the job gets it when it claims it at once, under the token that it draws.
next_due_item-claimable :
    (now job worker token : ℕ) (db : Db) (i : CheckItem)
    → IsOrdered db
    → IsUnique job_key db.jobs
    → next_due_item now job db ≡ some i
    → is_job_owned_by now job worker db ≡ true
    → (is_terminal_status i.status ≡ false)
      × ((mark_processing now token i.id (worker_of job worker) db).1 ≡ some token)
      × ((k : ℕ) (x : CheckItem)
          → find item_key k db.check_items ≡ some x
          → ((x.job_id == job) && is_selectable now x) ≡ true
          → i.id ≤ k)
unfolding next_due_item
next_due_item-claimable now job worker token db i o unique_jobs chosen owned =
    let guard = λ (i : CheckItem). (i.job_id == job) && is_selectable now i in
    let unique = Above-IsUnique item_key 0 db.check_items o.rising in
    let due_now = first_where-holds guard db.check_items i chosen in
    let here = first_where-find_self item_key guard db.check_items i unique chosen in
    let law = mark_processing_lem now i.id db i unique here token (worker_of job worker) in
    let leased = job_is_leased-eq-is_job_owned_by now i.job_id worker db unique_jobs in
    (
      ground (arith, due_now),
      ground (arith, due_now, law, leased),
      λ k x at_k h. first_where-least item_key 0 guard db.check_items i k x o.rising chosen at_k h,
    )
