-- ===== src/Validation/Soundness.antt =====
-- The engine's writes to items leave nothing to report.
use tools_tele_t_ng.Base.{
  String, ◌≡◌, ◌≢◌, refl, Bool, true, false, ◌&&◌, List, [], ◌∷◌, ◌++◌, update_where, ◌==◌,
  if◌then◌else◌, arith,
}
use tools_tele_t_ng.Models.Clock.{Moment}
use tools_tele_t_ng.Models.Status.{is_terminal_status, is_processing, is_in_flight_unknown}
use tools_tele_t_ng.Models.Rows.{Key, CheckItem}
use tools_tele_t_ng.Database.{Db}
use tools_tele_t_ng.ResultRepo.Items.{insert, insert_invalid, is_selectable}
use tools_tele_t_ng.ResultRepo.Claims.{
  owner_guard, claim_row, is_claimed, quarantine_row, mark_processing, mark_in_flight_unknown,
  recover_interrupted,
}
use tools_tele_t_ng.ResultRepo.Results.{Outcome, settle_row, save_result}
use tools_tele_t_ng.ResultRepo.Lifecycle.{
  ItemCall, imports, imports_invalid, claims, settles, quarantines, recovers, item_call,
  run_item_calls,
}
use tools_tele_t_ng.Validation.Checks.{Finding, item_findings, scan}

-- An outcome as the engine writes it: completed exactly if the status is settled, and neither
-- PROCESSING nor in quarantine.
abbrev pub IsProper : Outcome → Type 0
IsProper o =
    (o.completed ≡ is_terminal_status o.status)
    × (is_processing o.status ≡ false)
    × (is_in_flight_unknown o.status ≡ false)

-- Calls as the engine makes them: a token that is drawn is not empty, and outcomes are proper.
abbrev pub IsSound : ItemCall → Type 0
IsSound (claims token item_id owner) = token ≢ 0
IsSound (settles item_id outcome token owner) = IsProper outcome
IsSound _ = Unit {0}

abbrev pub AreSound : List (Moment × ItemCall) → Type 0
AreSound [] = Unit {0}
AreSound ((now, c) ∷ cs) = IsSound c × AreSound cs

nil_parts : (xs ys : List Finding) → xs ++ ys ≡ [] → (xs ≡ []) × (ys ≡ [])
nil_parts [] ys e = (refl, e)
nil_parts (x ∷ xs) ys e = absurd (ground arith)

nil_whole : (xs ys : List Finding) → xs ≡ [] → ys ≡ [] → xs ++ ys ≡ []
nil_whole xs ys e e' = rw (e, e') refl

scan-append :
    (rows : List CheckItem) (i : CheckItem)
    → scan item_findings rows ≡ []
    → item_findings i ≡ []
    → scan item_findings (rows ++ i ∷ []) ≡ []
scan-append [] i e h = nil_whole (item_findings i) [] h refl
scan-append (r ∷ rows) i e h =
    let parts = nil_parts (item_findings r) (scan item_findings rows) e in
    nil_whole (item_findings r) (scan item_findings (rows ++ i ∷ [])) parts.0
      (scan-append rows i parts.1 h)

scan-update_where :
    (p : CheckItem → Bool) (f : CheckItem → CheckItem) (rows : List CheckItem)
    → ((i : CheckItem) → p i ≡ true → item_findings i ≡ [] → item_findings (f i) ≡ [])
    → scan item_findings rows ≡ []
    → scan item_findings (update_where p f rows) ≡ []
scan-update_where p f [] h e = refl
scan-update_where p f (r ∷ rows) h e =
    let parts = nil_parts (item_findings r) (scan item_findings rows) e in
    nil_whole (item_findings (if p r then f r else r)) (scan item_findings (update_where p f rows))
      (row_clean (p r) refl) (scan-update_where p f rows h parts.1)
  where
    row_clean : (b : Bool) → p r ≡ b → item_findings (if b then f r else r) ≡ []
    row_clean true hit = h r hit (nil_parts (item_findings r) (scan item_findings rows) e).0
    row_clean false miss = (nil_parts (item_findings r) (scan item_findings rows) e).0

settle_row-clean :
    (now : Moment) (o : Outcome) (i : CheckItem)
    → IsProper o
    → item_findings (settle_row now o i) ≡ []
unfolding item_findings
settle_row-clean now o i proper = ground arith

claim_row-clean :
    (now : Moment) (token : Key) (i : CheckItem)
    → token ≢ 0
    → is_selectable now i ≡ true
    → item_findings i ≡ []
    → item_findings (claim_row now token i) ≡ []
unfolding item_findings
claim_row-clean now token i drawn due_now e = ground arith

quarantine_row-clean :
    (now recovery : Moment) (message : String) (i : CheckItem)
    → is_processing i.status ≡ true
    → item_findings i ≡ []
    → item_findings (quarantine_row now recovery message i) ≡ []
unfolding item_findings
quarantine_row-clean now recovery message i busy e = ground arith

item_call-clean :
    (now : Moment) (c : ItemCall) (db : Db)
    → IsSound c
    → scan item_findings db.check_items ≡ []
    → scan item_findings (item_call now c db).check_items ≡ []
unfolding item_call insert insert_invalid mark_processing save_result mark_in_flight_unknown
    recover_interrupted item_findings
item_call-clean now (imports job original normalized max) db sound e =
    scan-append db.check_items _ e refl
item_call-clean now (imports_invalid job original message) db sound e =
    scan-append db.check_items _ e refl
item_call-clean now (claims token item_id owner) db sound e =
    scan-update_where
      (λ i. (i.id == item_id) && (is_selectable now i && owner_guard now owner db i))
      (claim_row now token) db.check_items
      (λ i hit h. claim_row-clean now token i sound (ground arith) h) e
item_call-clean now (settles item_id outcome token owner) db sound e =
    scan-update_where (λ i. (i.id == item_id) && (is_claimed token i && owner_guard now owner db i))
      (settle_row now outcome) db.check_items (λ i hit h. settle_row-clean now outcome i sound) e
item_call-clean now (quarantines item_id token after) db sound e =
    scan-update_where (λ i. (i.id == item_id) && is_claimed token i) _ db.check_items
      (λ i hit h.
        quarantine_row-clean now after "Ownership lost while Telegram request was in flight" i
          (ground arith) h)
      e
item_call-clean now (recovers job after) db sound e =
    scan-update_where (λ i. (i.job_id == job) && is_processing i.status) _ db.check_items
      (λ i hit h.
        quarantine_row-clean now after "Worker stopped with an unresolved in-flight request" i
          (ground arith) h)
      e

-- The engine leaves no item for the database check to report: if the scan of the items finds nothing,
-- then it finds nothing after any sequence of imports, claims under tokens that are not empty, writes
-- of proper outcomes, quarantines and recoveries.
pub run_item_calls-clean :
    (cs : List (Moment × ItemCall)) (db : Db)
    → AreSound cs
    → scan item_findings db.check_items ≡ []
    → scan item_findings (run_item_calls cs db).check_items ≡ []
run_item_calls-clean [] db sound e = e
run_item_calls-clean ((now, c) ∷ cs) db sound e =
    run_item_calls-clean cs (item_call now c db) sound.1 (item_call-clean now c db sound.0 e)
