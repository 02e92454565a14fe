-- ===== src/Worker/Machine.antt =====
-- `Worker.process` as a machine: what happens between two awaits is one step, and other processes
-- may change the database in between.
use tools_tele_t_ng.Base.{
  ℕ, Bool, true, false, not, Option, none, some, List, [], ◌∷◌, if◌then◌else◌,
}
use tools_tele_t_ng.Models.Rows.{Key, CheckItem, CheckResponse}
use tools_tele_t_ng.Database.{Db}
use tools_tele_t_ng.JobRepo.Control.{acknowledge_pause}
use tools_tele_t_ng.LeaseKeeper.Keeper.{Fault, heartbeat, ownership_valid}
use tools_tele_t_ng.RetryQueue.Schedule.{RetryQueue}
use tools_tele_t_ng.RateLimiter.State.{to_iso, reload_from_db, is_blocked}
use tools_tele_t_ng.Worker.Turn.{World, Turn, turn}
use tools_tele_t_ng.Worker.Request.{Begin, begin_request, settle, abandon}

-- How `process` ended: normally, by a `LostOwnershipError`, or by another exception.
pub data Ending : Type 0 where
  normally ownership_lost crashed : Ending

pub data Phase : Type 0 where
  polling : Phase
  acquiring : CheckItem → Phase
  in_flight : CheckItem → Key → Phase
  stopped : Ending → Phase

pub record Machine : Type 0 where
  pub phase : Phase
  pub world : World

-- The `finally` of `process`: a pause that was taken is acknowledged.
unfoldable pub finish : ℕ → Key → Ending → World → Machine
finish ms job_id ending s =
    let w = record (s.worker) { no_more_items = true } in
    let db =
      if s.worker.paused_requested
      then acknowledge_pause (to_iso ms) job_id w.worker_id s.db
      else s.db in
    record { phase = stopped ending; world = record s { worker = w; db = db } }

abbrev pub at : Phase → World → Machine
at phase s = record { phase = phase; world = s }

-- `acquire` begins in the same step as the item is taken: it reads the cooldown again.
unfoldable pub after_turn : ℕ → Key → Turn × World → Machine
unfolding finish
after_turn ms job_id (Turn.cancelled, s) = finish ms job_id normally s
after_turn ms job_id (Turn.paused, s) = finish ms job_id normally s
after_turn ms job_id (Turn.lost, s) = finish ms job_id ownership_lost s
after_turn ms job_id (Turn.waits_for_rate, s) = at polling s
after_turn ms job_id (Turn.waits_for_retry, s) = at polling s
after_turn ms job_id (Turn.no_more, s) = finish ms job_id normally s
after_turn ms job_id (Turn.takes item, s) =
    at (acquiring item) (record s { limiter = reload_from_db ms s.limiter s.db })

unfoldable pub after_begin : ℕ → Key → CheckItem → Begin × World → Machine
unfolding finish
after_begin ms job_id item (Begin.sent token, s) = at (in_flight item token) s
after_begin ms job_id item (Begin.not_claimed, s) = at polling s
after_begin ms job_id item (Begin.lost, s) = finish ms job_id ownership_lost s

unfoldable pub after_settle : ℕ → Key → Bool × World → Machine
unfolding finish
after_settle ms job_id (true, s) = at polling s
after_settle ms job_id (false, s) = finish ms job_id ownership_lost s

-- What happens next, with the clock's reading: the loop takes a turn; `acquire` has slept to the end
-- of a block, and clears it; `acquire` returns, whenever that is, and a token is drawn; Telegram
-- answers; the fencing event fires first; an exception comes out of a call; the heartbeat beats;
-- another process has left the database so.
pub data Event : Type 0 where
  turns : ℕ → Event
  unblocks : ℕ → Event
  begins : ℕ → Key → Event
  answers : ℕ → Option (ℕ → ℕ) → CheckResponse → Event
  fenced : ℕ → Event
  raises : ℕ → Event
  beats : ℕ → Fault → Event
  others : Db → Event

unfoldable pub beat : ℕ → Fault → World → World
beat ms fault s = elim s.worker.lease_keeper [
  | none ↦ s
  | some k ↦
      let (k', db) = heartbeat (to_iso ms) fault k s.db in
      record s { worker = record (s.worker) { lease_keeper = some k' }; db = db }
]

-- Within `acquire`: the loop over the block ends, as `is_blocked` forgets a block that is past.
unfoldable pub unblock : ℕ → World → World
unblock ms s =
    let (_, limiter, db) = is_blocked ms s.limiter s.db in record s { limiter = limiter; db = db }

unfoldable pub poll : ℕ → Key → World → Machine
unfolding after_turn
poll ms job_id s =
    if s.worker.cancel then finish ms job_id normally s else after_turn ms job_id (turn ms job_id s)

-- Whether the fencing event has fired.
unfoldable pub is_fenced : World → Bool
is_fenced s = elim s.worker.lease_keeper [ none ↦ false | some k ↦ not (ownership_valid k) ]

unfoldable pub fence : ℕ → Key → CheckItem → Key → World → Machine
fence ms job_id item token s = finish ms job_id ownership_lost (abandon ms item token s)

-- Ownership wins over an answer that is there at the same time.
unfoldable pub answer :
    ℕ → Option (ℕ → ℕ) → RetryQueue → Key → CheckItem → Key → CheckResponse → World → Machine
unfolding is_fenced fence after_settle
answer ms jitter q job_id item token r s =
    if is_fenced s
    then fence ms job_id item token s
    else after_settle ms job_id (settle ms jitter q job_id item token r s)

-- An event that does not fit the phase changes nothing.
unfoldable pub on_phase : RetryQueue → Key → Event → Phase → World → Machine
unfolding poll unblock after_begin answer is_fenced fence
on_phase q job_id (turns ms) polling s = poll ms job_id s
on_phase q job_id (unblocks ms) (acquiring item) s = at (acquiring item) (unblock ms s)
on_phase q job_id (begins ms token) (acquiring item) s =
    after_begin ms job_id item (begin_request ms token job_id item s)
on_phase q job_id (answers ms jitter r) (in_flight item token) s =
    answer ms jitter q job_id item token r s
on_phase q job_id (fenced ms) (in_flight item token) s =
    if is_fenced s then fence ms job_id item token s else at (in_flight item token) s
on_phase q job_id (raises ms) (stopped ending) s = at (stopped ending) s
on_phase q job_id (raises ms) phase s = finish ms job_id crashed s
on_phase q job_id (beats ms fault) phase s = at phase (beat ms fault s)
on_phase q job_id (others db) phase s = at phase (record s { db = db })
on_phase q job_id _ phase s = at phase s

unfoldable pub step : RetryQueue → Key → Event → Machine → Machine
unfolding on_phase beat
step q job_id e m = on_phase q job_id e m.phase m.world

unfoldable pub process : RetryQueue → Key → List Event → Machine → Machine
process q job_id [] m = m
process q job_id (e ∷ es) m = process q job_id es (step q job_id e m)
