-- ===== src/Worker/Settled.antt =====
-- What the worker's machine never changes: the row of a settled item.
use tools_tele_t_ng.Base.{
  either_branch, ℕ, ◌≡◌, refl, ap, sym, ◌∙◌, subst, Bool, true, false, Option, none, some, List, [],
  ◌∷◌, find, Bool-cases, inl, inr,
}
use tools_tele_t_ng.Models.Status.{is_terminal_status}
use tools_tele_t_ng.Models.Rows.{Key, CheckItem, CheckResponse}
use tools_tele_t_ng.Database.{Db, item_key}
use tools_tele_t_ng.Checkpoint
use tools_tele_t_ng.ResultRepo.Lifecycle.{
  item_call, claims, settles, quarantines, item_call-settled,
}
use tools_tele_t_ng.RetryQueue.Schedule.{RetryQueue}
use tools_tele_t_ng.RateLimiter.State.{to_iso}
use tools_tele_t_ng.Worker.Turn.{World, assert_live_owner}
use tools_tele_t_ng.Worker.Request.{
  Begin, begun, begin_request, write_guards, quarantine_in_flight, handle_response, settle, abandon,
}
use tools_tele_t_ng.Worker.Answers.{Writes, respond-Writes}
use tools_tele_t_ng.Worker.Untouched.{is_blocked-items, finish-items, poll-items, beat-items}
use tools_tele_t_ng.Worker.Machine.{
  Machine, Phase, Ending, Event, polling, acquiring, in_flight, stopped, turns, unblocks, begins,
  answers, fenced, raises, beats, others, finish, after_begin, after_settle, unblock, is_fenced,
  fence, answer, on_phase, step, process,
}

begun-world : (s : World) (claim : Option Key) → (begun s claim).1 ≡ s
begun-world s none = refl
begun-world s (some token) = refl

-- The row of an item that is settled, in the database of a machine.
module _ (item_id : ℕ) (i : CheckItem) (settled : is_terminal_status i.status ≡ true) where
  abbrev Keeps : Db → Type 0
  Keeps db = find item_key item_id db.check_items ≡ some i

  by_items :
      {rows rows' : List CheckItem}
      → rows' ≡ rows
      → find item_key item_id rows ≡ some i
      → find item_key item_id rows' ≡ some i
  by_items same here = ap (find item_key item_id) same ∙ here

  begin-Keeps :
      (ms token job : ℕ) (item : CheckItem) (s : World)
      → Keeps s.db
      → Keeps (begin_request ms token job item s).1.db
  unfolding begin_request Checkpoint.mark_processing item_call
  begin-Keeps ms token job item s here =
      elim (Bool-cases (assert_live_owner (to_iso ms) s.worker s.db).0) [
        | inl owned ↦
            rw (begin_request, owned, begun-world)
              (item_call-settled (to_iso ms) item_id s.db i here settled (claims token item.id _))
        | inr lost ↦ rw (begin_request, lost) here
      ]

  handle-Keeps :
      (ms token job : ℕ) (jitter : Option (ℕ → ℕ)) (q : RetryQueue) (item : CheckItem)
      (r : CheckResponse) (s : World)
      → Keeps s.db
      → Keeps (handle_response ms jitter q job item token r s).1.db
  unfolding handle_response write_guards Writes item_call
  handle-Keeps ms token job jitter q item r s here =
      let g = write_guards job s.worker token in
      let (o, db, counted, status, ended, user, items, jobs, ok, left) =
        respond-Writes ms jitter q g item r s r.status in
      subst Keeps (sym left) (
        item_call-settled (to_iso ms) item_id db i (by_items items here) settled
          (settles item.id o token g.owner))

  settle-Keeps :
      (ms token job : ℕ) (jitter : Option (ℕ → ℕ)) (q : RetryQueue) (item : CheckItem)
      (r : CheckResponse) (s : World)
      → Keeps s.db
      → Keeps (settle ms jitter q job item token r s).1.db
  unfolding settle quarantine_in_flight item_call
  settle-Keeps ms token job jitter q item r s here =
      elim (Bool-cases (assert_live_owner (to_iso ms) s.worker s.db).0) [
        | inl owned ↦ rw (settle, owned) (handle-Keeps ms token job jitter q item r _ here)
        | inr lost ↦
            rw (settle, lost)
              (item_call-settled (to_iso ms) item_id s.db i here settled
                (quarantines item.id token _))
      ]

  abandon-Keeps :
      (ms token : ℕ) (item : CheckItem) (s : World)
      → Keeps s.db
      → Keeps (abandon ms item token s).db
  unfolding abandon quarantine_in_flight item_call
  abandon-Keeps ms token item s here =
      item_call-settled (to_iso ms) item_id s.db i here settled (quarantines item.id token _)

  finish-Keeps :
      (ms job : ℕ) (ending : Ending) (s : World)
      → Keeps s.db
      → Keeps (finish ms job ending s).world.db
  finish-Keeps ms job ending s here = by_items (finish-items ms job ending s) here

  after_begin-Keeps :
      (ms job : ℕ) (item : CheckItem) (b : Begin) (s : World)
      → Keeps s.db
      → Keeps (after_begin ms job item (b, s)).world.db
  unfolding after_begin
  after_begin-Keeps ms job item (Begin.sent token) s here = here
  after_begin-Keeps ms job item Begin.not_claimed s here = here
  after_begin-Keeps ms job item Begin.lost s here = finish-Keeps ms job Ending.ownership_lost s here

  after_settle-Keeps :
      (ms job : ℕ) (ok : Bool) (s : World)
      → Keeps s.db
      → Keeps (after_settle ms job (ok, s)).world.db
  unfolding after_settle
  after_settle-Keeps ms job true s here = here
  after_settle-Keeps ms job false s here = finish-Keeps ms job Ending.ownership_lost s here

  fence-Keeps :
      (ms job token : ℕ) (item : CheckItem) (s : World)
      → Keeps s.db
      → Keeps (fence ms job item token s).world.db
  unfolding fence
  fence-Keeps ms job token item s here =
      finish-Keeps ms job Ending.ownership_lost (abandon ms item token s)
        (abandon-Keeps ms token item s here)

  -- What other processes may do to the item: nothing.
  abbrev IsGentle : Event → Type 0
  IsGentle (others db) = Keeps db
  IsGentle _ = Unit {0}

  on_phase-Keeps :
      (q : RetryQueue) (job : ℕ) (e : Event) (phase : Phase) (s : World)
      → IsGentle e
      → Keeps s.db
      → Keeps (on_phase q job e phase s).world.db
  unfolding on_phase answer unblock
  on_phase-Keeps q job (turns ms) polling s g here = by_items (poll-items ms job s) here
  on_phase-Keeps q job (turns ms) (acquiring item) s g here = here
  on_phase-Keeps q job (turns ms) (in_flight item token) s g here = here
  on_phase-Keeps q job (turns ms) (stopped ending) s g here = here
  on_phase-Keeps q job (unblocks ms) (acquiring item) s g here =
      by_items (is_blocked-items ms s.limiter s.db) here
  on_phase-Keeps q job (unblocks ms) polling s g here = here
  on_phase-Keeps q job (unblocks ms) (in_flight item token) s g here = here
  on_phase-Keeps q job (unblocks ms) (stopped ending) s g here = here
  on_phase-Keeps q job (begins ms token) (acquiring item) s g here =
      after_begin-Keeps ms job item (begin_request ms token job item s).0
        (begin_request ms token job item s).1 (begin-Keeps ms token job item s here)
  on_phase-Keeps q job (begins ms token) polling s g here = here
  on_phase-Keeps q job (begins ms token) (in_flight item t) s g here = here
  on_phase-Keeps q job (begins ms token) (stopped ending) s g here = here
  on_phase-Keeps q job (answers ms jitter r) (in_flight item token) s g here =
      either_branch (λ (m : Machine). Keeps m.world.db) (is_fenced s)
        (fence-Keeps ms job token item s here)
        (after_settle-Keeps ms job (settle ms jitter q job item token r s).0
          (settle ms jitter q job item token r s).1
          (settle-Keeps ms token job jitter q item r s here))
  on_phase-Keeps q job (answers ms jitter r) polling s g here = here
  on_phase-Keeps q job (answers ms jitter r) (acquiring item) s g here = here
  on_phase-Keeps q job (answers ms jitter r) (stopped ending) s g here = here
  on_phase-Keeps q job (fenced ms) (in_flight item token) s g here =
      either_branch (λ (m : Machine). Keeps m.world.db) (is_fenced s)
        (fence-Keeps ms job token item s here) here
  on_phase-Keeps q job (fenced ms) polling s g here = here
  on_phase-Keeps q job (fenced ms) (acquiring item) s g here = here
  on_phase-Keeps q job (fenced ms) (stopped ending) s g here = here
  on_phase-Keeps q job (raises ms) (stopped ending) s g here = here
  on_phase-Keeps q job (raises ms) polling s g here = finish-Keeps ms job Ending.crashed s here
  on_phase-Keeps q job (raises ms) (acquiring item) s g here =
      finish-Keeps ms job Ending.crashed s here
  on_phase-Keeps q job (raises ms) (in_flight item t) s g here =
      finish-Keeps ms job Ending.crashed s here
  on_phase-Keeps q job (beats ms fault) phase s g here = by_items (beat-items ms fault s) here
  on_phase-Keeps q job (others db) phase s g here = g

-- Events among which no other process touches the item's row.
abbrev pub AreGentle : ℕ → CheckItem → List Event → Type 0
AreGentle item_id i [] = Unit {0}
AreGentle item_id i (others db ∷ es) =
    (find item_key item_id db.check_items ≡ some i) × AreGentle item_id i es
AreGentle item_id i (_ ∷ es) = AreGentle item_id i es

AreGentle-first :
    (item_id : ℕ) (i : CheckItem) (settled : is_terminal_status i.status ≡ true) (e : Event)
    (es : List Event)
    → AreGentle item_id i (e ∷ es)
    → IsGentle item_id i settled e × AreGentle item_id i es
AreGentle-first item_id i settled (turns ms) es g = (tt, g)
AreGentle-first item_id i settled (unblocks ms) es g = (tt, g)
AreGentle-first item_id i settled (begins ms token) es g = (tt, g)
AreGentle-first item_id i settled (answers ms jitter r) es g = (tt, g)
AreGentle-first item_id i settled (fenced ms) es g = (tt, g)
AreGentle-first item_id i settled (raises ms) es g = (tt, g)
AreGentle-first item_id i settled (beats ms fault) es g = (tt, g)
AreGentle-first item_id i settled (others db) es g = g

-- A worker never checks a settled number again: whatever sequence of turns, requests, answers, lost
-- leases, exceptions and heartbeats its loop goes through, from whatever phase, the row of an item
-- that is settled stays as it is, unless another process changes it.
process-settled :
    (q : RetryQueue) (job item_id : ℕ) (i : CheckItem) (es : List Event) (m : Machine)
    → find item_key item_id m.world.db.check_items ≡ some i
    → is_terminal_status i.status ≡ true
    → AreGentle item_id i es
    → find item_key item_id (process q job es m).world.db.check_items ≡ some i
unfolding process step
process-settled q job item_id i [] m here settled g = here
process-settled q job item_id i (e ∷ es) m here settled g =
    let (first, rest) = AreGentle-first item_id i settled e es g in
    process-settled q job item_id i es (step q job e m)
      (on_phase-Keeps item_id i settled q job e m.phase m.world first here) settled rest
