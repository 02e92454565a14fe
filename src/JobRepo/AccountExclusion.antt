-- ===== src/JobRepo/AccountExclusion.antt =====
-- The lease of an account over sequences of the repository's writes to it.
use tools_tele_t_ng.Base.{
  ℕ, ◌+◌, ◌≡◌, refl, ◌≢◌, ◌<◌, Bool, true, false, ◌&&◌, Option, some, List, [], ◌∷◌, find, find-key,
  find-append, find-update_where, ◌==◌, arith, Option-cases, inl, inr,
}
use tools_tele_t_ng.Models.Clock.{Moment}
use tools_tele_t_ng.Models.Rows.{Key}
use tools_tele_t_ng.Database.{Db, AccountLease, lease_key, update_accounts}
use tools_tele_t_ng.JobRepo.AccountLeases.{
  get_account, overwrite_account, is_unheld_account, account_lease, claim_account, renew_account,
  release_account, is_account_owned_by,
}
use tools_tele_t_ng.JobRepo.AccountClaims.{account_cell}

-- An UPDATE of `account_worker_state` keeps an account's lease if it keeps that of its row.
update_accounts-account_cell :
    (account : Key) (p : AccountLease → Bool) (f : AccountLease → AccountLease) (db : Db)
    (worker until job : Option ℕ)
    → account_cell account db ≡ some (worker, until, job)
    → ((a : AccountLease) → lease_key (f a) ≡ lease_key a)
    → ((a : AccountLease)
        → a.account_key ≡ account
        → a.worker_id ≡ worker
        → a.worker_lease_until ≡ until
        → a.job_id ≡ job
        → p a ≡ false)
    → account_cell account (update_accounts p f db) ≡ some (worker, until, job)
update_accounts-account_cell account p f db worker until job e k h =
    elim (Option-cases (find lease_key account db.account_worker_state)) [
      | inl gone ↦ ground arith
      | inr (a, here) ↦ ground (
        arith,
        find-update_where lease_key account p f db.account_worker_state k,
        find-key lease_key account db.account_worker_state a here,
        h a,
      )
    ]

-- The repository's writes to an account's lease.
pub data AccountCall : Type 0 where
  claims : Key → Key → Key → ℕ → ℕ → AccountCall
  renews : Key → Key → Key → ℕ → AccountCall
  releases : Key → Key → Option Key → AccountCall

unfoldable pub account_call : Moment → AccountCall → Db → Db
account_call now (claims account worker job lease grace) db =
    (claim_account now account worker job lease grace db).0
account_call now (renews account worker job lease) db =
    (renew_account now account worker job lease db).0
account_call now (releases account worker job) db = release_account now account worker job db

abbrev pub account_caller : AccountCall → Key
account_caller (claims account worker job lease grace) = worker
account_caller (renews account worker job lease) = worker
account_caller (releases account worker job) = worker

module _ (account worker until job now : ℕ) (db : Db)
    (held : account_cell account db ≡ some (some worker, some until, some job))
    (running : now < until) where
  claim-keeps_account :
      (target other job' lease grace : ℕ)
      → account_cell account (claim_account now target other job' lease grace db).0
        ≡ some (some worker, some until, some job)
  unfolding claim_account get_account
  claim-keeps_account target other job' lease grace =
      elim (Option-cases (find lease_key target db.account_worker_state)) [
        | inl fresh ↦ ground (
          arith,
          find-append lease_key account db.account_worker_state
              (account_lease now (now + lease) target other job'),
        )
        | inr (a, here) ↦ ground (
          arith,
          update_accounts-account_cell account
              (λ a. (a.account_key == target) && is_unheld_account now a)
              (overwrite_account (account_lease now (now + lease) target other job')) db
              (some worker) (some until) (some job) held (λ a. refl) (λ a k w u j. ground arith),
        )
      ]

  -- A call by another worker leaves the account's lease as it is, as does any claim.
  account_call-keeps_lease :
      (c : AccountCall)
      → account_caller c ≢ worker
      → account_cell account (account_call now c db) ≡ some (some worker, some until, some job)
  unfolding account_call renew_account release_account
  account_call-keeps_lease (claims target other job' lease grace) ne =
      claim-keeps_account target other job' lease grace
  account_call-keeps_lease (renews target other job' lease) ne =
      update_accounts-account_cell account _ _ db _ _ _ held (λ a. refl) (λ a k w u j. ground arith)
  account_call-keeps_lease (releases target other job') ne =
      update_accounts-account_cell account _ _ db _ _ _ held (λ a. refl) (λ a k w u j. ground arith)

abbrev pub run_account_calls : List (Moment × AccountCall) → Db → Db
run_account_calls [] db = db
run_account_calls ((now, c) ∷ cs) db = run_account_calls cs (account_call now c db)

abbrev pub AreForeign : Key → Moment → List (Moment × AccountCall) → Type 0
AreForeign worker until [] = Unit {0}
AreForeign worker until ((now, c) ∷ cs) =
    (now < until) × (account_caller c ≢ worker) × AreForeign worker until cs

run_account_calls-keeps_lease :
    (account worker until job : ℕ) (cs : List (Moment × AccountCall)) (db : Db)
    → account_cell account db ≡ some (some worker, some until, some job)
    → AreForeign worker until cs
    → account_cell account (run_account_calls cs db) ≡ some (some worker, some until, some job)
run_account_calls-keeps_lease account worker until job [] db held foreign = held
run_account_calls-keeps_lease account worker until job ((now, c) ∷ cs) db held foreign =
    run_account_calls-keeps_lease account worker until job cs (account_call now c db)
      (account_call-keeps_lease account worker until job now db held foreign.0 c foreign.1)
      foreign.2

-- One Telegram account, one worker: while a worker's lease on an account runs, no sequence of
-- claims, renewals and releases by other workers takes it away, and the worker still owns the
-- account for its job at every moment before the lease ends.
pub run_account_calls-is_account_owned_by :
    (account worker until job : ℕ) (cs : List (Moment × AccountCall)) (db : Db)
    → account_cell account db ≡ some (some worker, some until, some job)
    → AreForeign worker until cs
    → (now : Moment) → now < until
    → is_account_owned_by now account worker job (run_account_calls cs db) ≡ true
unfolding is_account_owned_by get_account
run_account_calls-is_account_owned_by account worker until job cs db held foreign now running =
    let kept = run_account_calls-keeps_lease account worker until job cs db held foreign in
    elim (Option-cases (find lease_key account (run_account_calls cs db).account_worker_state)) [
      | inl gone ↦ ground (arith, kept)
      | inr (a, here) ↦ ground (arith, kept)
    ]
