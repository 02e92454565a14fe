-- ===== src/ResultRepo/Lifecycle.antt =====
-- The life of an item over sequences of the repository's writes: settled items stay as they are, a
-- late write is refused, an item in quarantine waits.
use tools_tele_t_ng.Base.{
  first_where-holds, update_where-IsUnique, ℕ, ◌≡◌, refl, ◌≢◌, ◌↔◌, ◌≤◌, Bool, true, false, ◌&&◌,
  Option, some, List, [], ◌∷◌, ◌++◌, String, find, IsUnique, update_where, count_where, write_lem,
  find-update_row, find-append, ◌==◌, arith,
}
use tools_tele_t_ng.Models.Clock.{Moment}
use tools_tele_t_ng.Models.Status.{CheckStatus, is_processing, is_terminal_status}
use tools_tele_t_ng.Models.Rows.{Key, CheckItem}
use tools_tele_t_ng.Database.{Db, item_key}
use tools_tele_t_ng.JobRepo.Stats.{tally}
use tools_tele_t_ng.ResultRepo.Items.{insert, insert_invalid, is_selectable, next_due_item}
use tools_tele_t_ng.ResultRepo.Claims.{
  Owner, mark_processing, mark_in_flight_unknown, recover_interrupted, claim_row, quarantine_row,
  is_claimed,
}
use tools_tele_t_ng.ResultRepo.Results.{Outcome, Guards, save_result, settle_row}
use tools_tele_t_ng.ResultRepo.Fencing.{mark_processing_lem, save_result_lem, guards_of}

-- The writes to `check_items` that the engine makes: imports, claims, writes under a token, and
-- the two quarantines.
pub data ItemCall : Type 0 where
  imports : Key → String → String → ℕ → ItemCall
  imports_invalid : Key → String → Option String → ItemCall
  claims : Key → ℕ → Owner → ItemCall
  settles : ℕ → Outcome → Key → Owner → ItemCall
  quarantines : ℕ → Key → Moment → ItemCall
  recovers : Key → Moment → ItemCall

unfoldable pub item_call : Moment → ItemCall → Db → Db
item_call now (imports job original normalized max) db =
    (insert now job original normalized max db).0
item_call now (imports_invalid job original message) db =
    (insert_invalid now job original message db).0
item_call now (claims token item_id owner) db = (mark_processing now token item_id owner db).0
item_call now (settles item_id outcome token owner) db =
    (save_result now item_id outcome (record { processing_token = some token; owner = owner }) db).0
item_call now (quarantines item_id token after) db =
    (mark_in_flight_unknown now item_id token after db).0
item_call now (recovers job after) db = (recover_interrupted now job after db).0

settled_unselectable :
    (now : Moment) (i : CheckItem)
    → is_terminal_status i.status ≡ true
    → is_selectable now i ≡ false
settled_unselectable now i settled = ground arith

settled_unclaimed :
    (token : Key) (i : CheckItem) → is_terminal_status i.status ≡ true → is_claimed token i ≡ false
settled_unclaimed token i settled = ground arith

settled_idle : (i : CheckItem) → is_terminal_status i.status ≡ true → is_processing i.status ≡ false
settled_idle i settled = ground arith

module _ (now item_id : ℕ) (db : Db) (i : CheckItem)
    (here : find item_key item_id db.check_items ≡ some i)
    (settled : is_terminal_status i.status ≡ true) where
  spares :
      (p : CheckItem → Bool) (f : CheckItem → CheckItem)
      → ((i : CheckItem) → item_key (f i) ≡ item_key i)
      → p i ≡ false
      → find item_key item_id (update_where p f db.check_items) ≡ some i
  spares p f h miss = ground (arith, find-update_row item_key item_id p f db.check_items i h here)

  adds : (r : CheckItem) → find item_key item_id (db.check_items ++ r ∷ []) ≡ some i
  adds r = ground (arith, find-append item_key item_id db.check_items r)

  pub item_call-settled :
      (c : ItemCall) → find item_key item_id (item_call now c db).check_items ≡ some i
  unfolding item_call insert insert_invalid mark_processing save_result mark_in_flight_unknown
      recover_interrupted
  item_call-settled (imports job original normalized max) = adds _
  item_call-settled (imports_invalid job original message) = adds _
  item_call-settled (claims token target owner) =
      spares _ _ (λ i. refl) (ground (arith, settled_unselectable now i settled))
  item_call-settled (settles target outcome token owner) =
      spares _ _ (λ i. refl) (ground (arith, settled_unclaimed token i settled))
  item_call-settled (quarantines target token after) =
      spares _ _ (λ i. refl) (ground (arith, settled_unclaimed token i settled))
  item_call-settled (recovers job after) =
      spares _ _ (λ i. refl) (ground (arith, settled_idle i settled))

abbrev pub run_item_calls : List (Moment × ItemCall) → Db → Db
run_item_calls [] db = db
run_item_calls ((now, c) ∷ cs) db = run_item_calls cs (item_call now c db)

-- A settled number stays settled: once an item is FOUND, NOT_DISCOVERABLE or PERMANENT_ERROR, no
-- sequence of imports, claims, writes under a token, quarantines and recoveries changes its row, and
-- the selection of the next item never returns it.
pub run_item_calls-settled :
    (item_id : ℕ) (i : CheckItem) (cs : List (Moment × ItemCall)) (db : Db)
    → find item_key item_id db.check_items ≡ some i
    → is_terminal_status i.status ≡ true
    → (find item_key item_id (run_item_calls cs db).check_items ≡ some i)
      × ((now : Moment) (job : Key) → next_due_item now job (run_item_calls cs db) ≢ some i)
unfolding next_due_item
run_item_calls-settled item_id i [] db here settled = (
  here,
  λ now job e.
      let due_now =
        first_where-holds (λ i. (i.job_id == job) && is_selectable now i) db.check_items i e in
      ground (arith, due_now, settled_unselectable now i settled),
)
run_item_calls-settled item_id i ((now, c) ∷ cs) db here settled =
    run_item_calls-settled item_id i cs (item_call now c db)
      (item_call-settled now item_id db i here settled c) settled

-- A write under a token that the row does not carry.
unclaimed_refused :
    (now item_id : ℕ) (db : Db) (i : CheckItem) (outcome : Outcome) (token job worker : Key)
    → IsUnique item_key db.check_items
    → find item_key item_id db.check_items ≡ some i
    → is_claimed token i ≡ false
    → save_result now item_id outcome (guards_of token job worker) db ≡ (db, false)
unclaimed_refused now item_id db i outcome token job worker unique here other =
    let law = save_result_lem now item_id db i unique here outcome (guards_of token job worker) in
    let missed : (save_result now item_id outcome (guards_of token job worker) db).1 ≡ false =
      ground (arith, law.0) in
    let kept : (save_result now item_id outcome (guards_of token job worker) db).0 ≡ db =
      ground (arith, law) in
    λ k. (kept k, missed k)

mark_processing-IsUnique :
    (now token item_id : ℕ) (owner : Owner) (db : Db)
    → IsUnique item_key db.check_items
    → IsUnique item_key (mark_processing now token item_id owner db).0.check_items
unfolding mark_processing
mark_processing-IsUnique now token item_id owner db u =
    update_where-IsUnique item_key _ _ db.check_items (λ i. refl) u

save_result-IsUnique :
    (now item_id : ℕ) (outcome : Outcome) (guards : Guards) (db : Db)
    → IsUnique item_key db.check_items
    → IsUnique item_key (save_result now item_id outcome guards db).0.check_items
unfolding save_result
save_result-IsUnique now item_id outcome guards db u =
    update_where-IsUnique item_key _ _ db.check_items (λ i. refl) u

-- No late write after a takeover: once an item has been claimed under a new token, a write under any
-- other token is refused and changes nothing, whoever makes it.
pub stale_write_refused :
    (now later item_id : ℕ) (db : Db) (i : CheckItem) (outcome : Outcome) (old new job worker : Key)
    (owner : Owner)
    → IsUnique item_key db.check_items
    → find item_key item_id db.check_items ≡ some i
    → old ≢ new
    → let (db', claimed) = mark_processing now new item_id owner db in
      claimed ≡ some new
      → save_result later item_id outcome (guards_of old job worker) db' ≡ (db', false)
stale_write_refused now later item_id db i outcome old new job worker owner unique here ne claimed =
    let law = mark_processing_lem now item_id db i unique here new owner in
    unclaimed_refused later item_id _ (claim_row now new i) outcome old job worker
      (mark_processing-IsUnique now new item_id owner db unique) (ground (arith, law))
      (ground arith)

-- A token is good for one write: after a write under it that is made, every later write under it is
-- refused and changes nothing.
token_spent :
    (now later item_id : ℕ) (db : Db) (i : CheckItem) (first second : Outcome)
    (token job worker : Key)
    → IsUnique item_key db.check_items
    → find item_key item_id db.check_items ≡ some i
    → let (db', written) = save_result now item_id first (guards_of token job worker) db in
      written ≡ true
      → save_result later item_id second (guards_of token job worker) db' ≡ (db', false)
token_spent now later item_id db i first second token job worker unique here written =
    let law = save_result_lem now item_id db i unique here first (guards_of token job worker) in
    unclaimed_refused later item_id _ (settle_row now first i) second token job worker
      (save_result-IsUnique now item_id first (guards_of token job worker) db unique)
      (ground (arith, law)) (ground arith)

-- An item put in quarantine cannot be taken before its recovery time, and can from then on.
quarantine_waits :
    (now later item_id : ℕ) (db : Db) (i : CheckItem) (token : Key) (recovery_after : Moment)
    → IsUnique item_key db.check_items
    → find item_key item_id db.check_items ≡ some i
    → let (db', written) = mark_in_flight_unknown now item_id token recovery_after db in
      written ≡ true
      → (i' : CheckItem) × (find item_key item_id db'.check_items ≡ some i')
        × (i'.status ≡ CheckStatus.in_flight_unknown)
        × ((is_selectable later i' ≡ true) ↔ (recovery_after ≤ later))
unfolding mark_in_flight_unknown
quarantine_waits now later item_id db i token recovery_after unique here written =
    let f =
      quarantine_row now recovery_after "Ownership lost while Telegram request was in flight" in
    let law =
      write_lem item_key item_id (is_claimed token) f db.check_items i (λ i. refl) unique here in
    (f i, ground (arith, law), refl, (λ e. ground arith, λ e. ground arith))

count_where_none :
    (p : CheckItem → Bool) (f : CheckItem → CheckItem) (rows : List CheckItem)
    → ((i : CheckItem) → p (f i) ≡ false)
    → count_where p (update_where p f rows) ≡ 0
count_where_none p f [] h = refl
count_where_none p f (i ∷ rows) h = ground (arith, h i, count_where_none p f rows h)

-- Recovery leaves no item of the job in PROCESSING, returns how many there were, and changes no item
-- of another job and none in another status.
pub recover_interrupted_lem :
    (now job : ℕ) (recovery_after : Moment) (db : Db)
    → let (db', n) = recover_interrupted now job recovery_after db in
      (n ≡ tally job is_processing db)
      × (tally job is_processing db' ≡ 0)
      × ((item_id : ℕ) (i : CheckItem)
          → find item_key item_id db.check_items ≡ some i
          → ((i.job_id == job) && is_processing i.status) ≡ false
          → find item_key item_id db'.check_items ≡ some i)
unfolding recover_interrupted
recover_interrupted_lem now job recovery_after db = (
  refl,
  count_where_none (λ i. (i.job_id == job) && is_processing i.status) _ db.check_items
      (λ i. ground arith),
  λ item_id i here other. ground (
    arith,
    find-update_row item_key item_id (λ i. (i.job_id == job) && is_processing i.status)
        (quarantine_row now recovery_after "Worker stopped with an unresolved in-flight request")
        db.check_items i (λ i. refl) here,
  ),
)
