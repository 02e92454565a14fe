-- ===== src/LeaseKeeper/Heartbeats.antt =====
-- The heartbeat loop over time: each beat meets the database as other processes have left it.
use tools_tele_t_ng.Base.{
  either_branch, ◌+◌, ◌≡◌, refl, ◌↔◌, ◌≤◌, ap, sym, ◌∙◌, subst, Bool, true, false, List, [], ◌∷◌,
  leb, if◌then◌else◌,
}
use tools_tele_t_ng.Models.Clock.{Moment}
use tools_tele_t_ng.Database.{Db}
use tools_tele_t_ng.LeaseKeeper.Keeper.{
  Keeper, Fault, no_fault, at_job, at_account, note_renewal, renew_once, heartbeat,
}
use tools_tele_t_ng.LeaseKeeper.FailClosed.{after_renewals, heartbeat-note, HasRun, lost_iff_run}

-- When the beat comes, which of its calls raises, and the database that it finds.
pub record Beat : Type 0 where
  pub now : Moment
  pub fault : Fault
  pub db : Db

abbrev pub run_beats : List Beat → Keeper → Keeper
run_beats [] k = k
run_beats (b ∷ bs) k = run_beats bs (heartbeat b.now b.fault k b.db).0

-- Whether the renewals of the two leases succeed there.
abbrev pub renewals : List Beat → Keeper → List Bool
renewals [] k = []
renewals (b ∷ bs) k = (renew_once b.now b.fault k b.db).1 ∷ renewals bs k

-- The counting of failures does not change what is renewed.
renew_once-note :
    (now : Moment) (fault : Fault) (ok : Bool) (k : Keeper) (db : Db)
    → renew_once now fault (note_renewal ok k) db ≡ renew_once now fault k db
unfolding renew_once note_renewal
renew_once-note now at_job ok k db = refl
renew_once-note now no_fault true k db = refl
renew_once-note now at_account true k db = refl
renew_once-note now no_fault false k db =
    either_branch (λ (k' : Keeper). renew_once now no_fault k' db ≡ renew_once now no_fault k db)
      (leb k.renew_failure_limit (k.renew_failures + 1)) refl refl
renew_once-note now at_account false k db =
    either_branch
      (λ (k' : Keeper). renew_once now at_account k' db ≡ renew_once now at_account k db)
      (leb k.renew_failure_limit (k.renew_failures + 1)) refl refl

renewals-noted :
    (bs : List Beat) (ok : Bool) (k : Keeper) → renewals bs (note_renewal ok k) ≡ renewals bs k
renewals-noted [] ok k = refl
renewals-noted (b ∷ bs) ok k =
    ap (λ r. r.1 ∷ renewals bs (note_renewal ok k)) (renew_once-note b.now b.fault ok k b.db)
    ∙ ap (λ oks. (renew_once b.now b.fault k b.db).1 ∷ oks) (renewals-noted bs ok k)

renewals-note :
    (bs : List Beat) (ok : Bool) (k : Keeper)
    → renewals bs (if k.ownership_lost then k else note_renewal ok k) ≡ renewals bs k
renewals-note bs ok k =
    either_branch (λ (k' : Keeper). renewals bs k' ≡ renewals bs k) k.ownership_lost refl
      (renewals-noted bs ok k)

run_beats-renewals :
    (bs : List Beat) (k : Keeper) → run_beats bs k ≡ after_renewals (renewals bs k) k
run_beats-renewals [] k = refl
run_beats-renewals (b ∷ bs) k =
    let ok = (renew_once b.now b.fault k b.db).1 in
    ap (run_beats bs) (heartbeat-note b.now b.fault k b.db)
    ∙ run_beats-renewals bs (if k.ownership_lost then k else note_renewal ok k)
    ∙ ap (λ oks. after_renewals oks (if k.ownership_lost then k else note_renewal ok k))
        (renewals-note bs ok k)

-- The keeper fails closed, and no sooner: a keeper that starts with no failure behind it has given up
-- after a sequence of heartbeats exactly if, somewhere in it, as many of them in a row as its limit
-- says could not renew the leases, because a lease was gone or because the database raised.
pub run_beats_lost :
    (bs : List Beat) (k : Keeper)
    → k.ownership_lost ≡ false
    → k.renew_failures ≡ 0
    → 1 ≤ k.renew_failure_limit
    → ((run_beats bs k).ownership_lost ≡ true) ↔ HasRun k.renew_failure_limit (renewals bs k)
run_beats_lost bs k held none_yet pos =
    subst (λ k'. (k'.ownership_lost ≡ true) ↔ HasRun k.renew_failure_limit (renewals bs k))
      (sym (run_beats-renewals bs k)) (lost_iff_run (renewals bs k) k held none_yet pos)
