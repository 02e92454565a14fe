-- ===== src/LeaseKeeper/FailClosed.antt =====
-- When the keeper gives up, and what its check of ownership means.
use tools_tele_t_ng.Base.{
  ℕ, zero, suc, ◌+◌, ◌≡◌, refl, ◌↔◌, ◌≤◌, ◌<◌, ap, sym, ◌∙◌, Bool, true, false, some, List, [], ◌∷◌,
  ◌++◌, leb, if◌then◌else◌, arith, Bool-cases, Option-cases, inl, inr,
}
use native.Mathlib.Numerals.{add-one}
use tools_tele_t_ng.Models.Clock.{Moment}
use tools_tele_t_ng.Models.Rows.{Key}
use tools_tele_t_ng.Database.{Db}
use tools_tele_t_ng.JobRepo.JobLease.{is_job_owned_by}
use tools_tele_t_ng.JobRepo.AccountLeases.{is_account_owned_by}
use tools_tele_t_ng.LeaseKeeper.Keeper.{
  Keeper, Fault, has_account, note_renewal, renew_once, heartbeat, assert_ownership,
}

-- A row of renewals that all fail.
abbrev pub failures : ℕ → List Bool
failures zero = []
failures (suc n) = false ∷ failures n

-- The keeper after turns of the loop with these results.
abbrev pub after_renewals : List Bool → Keeper → Keeper
after_renewals [] k = k
after_renewals (ok ∷ oks) k = after_renewals oks (if k.ownership_lost then k else note_renewal ok k)

-- Each turn of the loop is such a step, with the result of its renewal.
pub heartbeat-note :
    (now : Moment) (fault : Fault) (k : Keeper) (db : Db)
    → (heartbeat now fault k db).0 ≡ after_renewals ((renew_once now fault k db).1 ∷ []) k
unfolding heartbeat
heartbeat-note now fault k db = ground arith

lost_stays :
    (oks : List Bool) (k : Keeper)
    → k.ownership_lost ≡ true
    → (after_renewals oks k).ownership_lost ≡ true
lost_stays [] k h = h
lost_stays (ok ∷ oks) k h = lost_stays oks _ (ground arith)

failures-snoc : (n : ℕ) (bs : List Bool) → failures n ++ (false ∷ bs) ≡ failures (suc n) ++ bs
failures-snoc zero bs = refl
failures-snoc (suc n) bs = ap (◌∷◌ false) (failures-snoc n bs)

append_assoc : (xs ys zs : List Bool) → (xs ++ ys) ++ zs ≡ xs ++ (ys ++ zs)
append_assoc [] ys zs = refl
append_assoc (x ∷ xs) ys zs = ap (◌∷◌ x) (append_assoc xs ys zs)

-- Some row of `limit` failures stands in the list.
abbrev pub HasRun : ℕ → List Bool → Type 0
HasRun limit oks =
    (before : List Bool) × (behind : List Bool) × (oks ≡ before ++ (failures limit ++ behind))

-- A keeper that is not lost has fewer failures behind it than its limit.
abbrev IsOpen : Keeper → Type 0
IsOpen k = (k.ownership_lost ≡ false) × (k.renew_failures < k.renew_failure_limit)

-- A run behind a renewal that succeeded.
behind_success :
    (limit n : ℕ) (oks : List Bool) → HasRun limit oks → HasRun limit (failures n ++ (true ∷ oks))
behind_success limit n oks (before, behind, e) = (
  failures n ++ (true ∷ before),
  behind,
  ap (λ xs. failures n ++ (true ∷ xs)) e
      ∙ sym (append_assoc (failures n) (true ∷ before) (failures limit ++ behind)),
)

-- The failure that makes the run complete.
at_limit :
    (limit n : ℕ) (oks : List Bool) → limit ≡ suc n → HasRun limit (failures n ++ (false ∷ oks))
at_limit limit n oks e = ([], oks, rw e (failures-snoc n oks))

one_more :
    (limit n : ℕ) (oks : List Bool)
    → HasRun limit (failures (n + 1) ++ oks)
    → HasRun limit (failures n ++ (false ∷ oks))
one_more limit n oks h = rw failures-snoc (rw (add-one n) at h)

lost-run :
    (oks : List Bool) (k : Keeper)
    → IsOpen k
    → (after_renewals oks k).ownership_lost ≡ true
    → HasRun k.renew_failure_limit (failures k.renew_failures ++ oks)
unfolding note_renewal
lost-run [] k h lost = absurd (ground (arith, h))
lost-run (true ∷ oks) k h lost =
    behind_success k.renew_failure_limit k.renew_failures oks
      (lost-run oks (record k { renew_failures = 0 }) (h.0, omega (arith, h)) (ground (arith, h)))
lost-run (false ∷ oks) k h lost =
    elim (Bool-cases (leb k.renew_failure_limit (k.renew_failures + 1))) [
      | inl last ↦ at_limit k.renew_failure_limit k.renew_failures oks (ground (arith, h))
      | inr more ↦ one_more k.renew_failure_limit k.renew_failures oks (
          lost-run oks (record k { renew_failures = k.renew_failures + 1 }) (ground (arith, h))
            (ground (arith, h)))
    ]

-- A failed renewal is counted while the keeper holds on.
failing_step :
    (k : Keeper)
    → let next = if k.ownership_lost then k else note_renewal false k in
      next.ownership_lost ≡ false
      → (next.renew_failures ≡ k.renew_failures + 1)
        × (next.renew_failure_limit ≡ k.renew_failure_limit)
unfolding note_renewal
failing_step k h = ground arith

-- The other way: a whole run of failures makes the keeper lost, whatever stands before and behind.
run_of_failures :
    (m : ℕ) (behind : List Bool) (k : Keeper)
    → k.renew_failure_limit ≤ k.renew_failures + m
    → 1 ≤ m
    → (after_renewals (failures m ++ behind) k).ownership_lost ≡ true
unfolding note_renewal
run_of_failures zero behind k h pos = elim pos [ ]
run_of_failures (suc zero) behind k h pos = lost_stays behind _ (ground arith)
run_of_failures (suc (suc m)) behind k h pos =
    let next = if k.ownership_lost then k else note_renewal false k in
    elim (Bool-cases next.ownership_lost) [
      | inl lost ↦ lost_stays (failures (suc m) ++ behind) next lost
      | inr held ↦
          run_of_failures (suc m) behind next (ground (arith, failing_step k)) (omega arith)
    ]

-- A setting of the limit does not change, nor the leases that are kept.
limit_kept :
    (oks : List Bool) (k : Keeper)
    → (after_renewals oks k).renew_failure_limit ≡ k.renew_failure_limit
unfolding note_renewal
limit_kept [] k = refl
limit_kept (ok ∷ oks) k =
    limit_kept oks (if k.ownership_lost then k else note_renewal ok k) ∙ ground arith

after_renewals-append :
    (xs ys : List Bool) (k : Keeper)
    → after_renewals (xs ++ ys) k ≡ after_renewals ys (after_renewals xs k)
after_renewals-append [] ys k = refl
after_renewals-append (x ∷ xs) ys k = after_renewals-append xs ys _

-- Fail closed, and no sooner: a keeper that starts with no failure behind it has lost ownership after
-- a sequence of renewals exactly if `limit` renewals in a row have failed somewhere in it.
pub lost_iff_run :
    (oks : List Bool) (k : Keeper)
    → k.ownership_lost ≡ false
    → k.renew_failures ≡ 0
    → 1 ≤ k.renew_failure_limit
    → ((after_renewals oks k).ownership_lost ≡ true) ↔ HasRun k.renew_failure_limit oks
lost_iff_run oks k held none_yet pos = (
  λ lost. rw none_yet at (lost-run oks k (held, omega arith) lost),
  λ (before, behind, e).
      rw (e, after_renewals-append)
        (run_of_failures k.renew_failure_limit behind (after_renewals before k)
          (omega (arith, limit_kept before k)) pos),
)

-- The gate in front of every use of Telegram: `assert_ownership` returns exactly if the keeper has not
-- given up, the job is owned by a running lease, and so is the account, if there is one; where it
-- raises, the keeper counts as lost from then on.
pub assert_ownership_iff :
    (now : Moment) (k : Keeper) (db : Db)
    → let (owned, k') = assert_ownership now k db in
      ((owned ≡ true) ↔ (
        (k.ownership_lost ≡ false)
        × (is_job_owned_by now k.job_id k.worker_id db ≡ true)
        × ((account : Key)
            → has_account k.account_key ≡ some account
            → is_account_owned_by now account k.worker_id k.job_id db ≡ true)))
      × (owned ≡ true → k' ≡ k)
      × (owned ≡ false → k'.ownership_lost ≡ true)
unfolding assert_ownership
assert_ownership_iff now k db = elim (Option-cases (has_account k.account_key)) [
  | inl no_account ↦ (
    (
      λ owned. (ground arith, ground arith, λ account e. ground arith),
      λ (held, job_owned, account_owned). ground arith,
    ),
    λ owned. ground arith,
    λ lost. ground arith,
  )
  | inr (a, named) ↦ (
    (
      λ owned. (ground arith, ground arith, λ account e. ground arith),
      λ (held, job_owned, account_owned). ground (arith, account_owned a named),
    ),
    λ owned. ground arith,
    λ lost. ground arith,
  )
]
