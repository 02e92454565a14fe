-- ===== src/JobRepo/AccountClaims.antt =====
-- The lease of a Telegram account: what claims and renewals come to, and who can lose it to whom.
use tools_tele_t_ng.Base.{
  ℕ, ◌+◌, ◌≡◌, refl, ◌<◌, ap, ◌∙◌, sym, Bool, true, false, not, ◌&&◌, Option, none, some, find,
  IsUnique, find-append, rowcount-hit, update_where_missed, find-update_self, hit, ◌==◌,
  if◌then◌else◌, arith, Option-cases, inl, inr,
}
use tools_tele_t_ng.Models.Clock.{Moment, iso_from_offset}
use tools_tele_t_ng.Models.Rows.{Key}
use tools_tele_t_ng.Database.{Db, AccountLease, lease_key, write_accounts}
use tools_tele_t_ng.JobRepo.JobLease.{refuses}
use tools_tele_t_ng.JobRepo.AccountLeases.{
  get_account, overwrite_account, upsert_account, is_unheld_account, account_lease, claim_account,
}

-- What the database says of an account's lease: the worker, the end, the job.
abbrev pub account_cell : Key → Db → Option (Option Key × Option Moment × Option Key)
account_cell account db = elim (find lease_key account db.account_worker_state) [
  | none ↦ none
  | some a ↦ some (a.worker_id, a.worker_lease_until, a.job_id)
]

-- Whether a claim wins: there is no row, or nobody holds it, the takeover grace included.
abbrev pub account_wins : Key → Moment → ℕ → Option AccountLease → Bool
account_wins worker now grace none = true
account_wins worker now grace (some a) =
    is_unheld_account now a && not (refuses worker now grace a.worker_id a.worker_lease_until)

-- As for a job: the result is as expected, and the lease taken or nothing changed.
abbrev pub LeasesAccount : Key → Key → Key → Moment → Db → Bool → Db × Bool → Type 0
LeasesAccount account worker job until db expected (db', won) =
    (won ≡ expected)
    × (won ≡ true → account_cell account db' ≡ some (some worker, some until, some job))
    × (won ≡ false → db' ≡ db)

module _ (account : Key) (q : AccountLease → Bool) (f : AccountLease → AccountLease) (db : Db)
    (unique : IsUnique lease_key db.account_worker_state) (a : AccountLease)
    (here : find lease_key account db.account_worker_state ≡ some a)
    (key_kept : (x : AccountLease) → lease_key (f x) ≡ lease_key x) where
  written : (write_accounts (λ x. (x.account_key == account) && q x) f db).1 ≡ q a
  written = rowcount-hit lease_key account q db.account_worker_state unique ∙ ap (hit q) here

  refused :
      (write_accounts (λ x. (x.account_key == account) && q x) f db).1 ≡ false
      → (write_accounts (λ x. (x.account_key == account) && q x) f db).0 ≡ db
  refused e =
      ap (λ rows. record db { account_worker_state = rows })
        (update_where_missed lease_key account q f db.account_worker_state unique
          (ap (hit q) here ∙ sym written ∙ e))

  done :
      (write_accounts (λ x. (x.account_key == account) && q x) f db).1 ≡ true
      → (q a ≡ true)
        × (find lease_key account
              (write_accounts (λ x. (x.account_key == account) && q x) f db).0.account_worker_state
            ≡ some (f a))
  done e = ground (
    arith,
    written,
    find-update_self lease_key account q f db.account_worker_state a key_kept here,
  )

module _ (now account worker job lease grace : ℕ) (db : Db)
    (unique : IsUnique lease_key db.account_worker_state) where
  new_row : AccountLease
  new_row = account_lease now (iso_from_offset now lease) account worker job

  upsert_fresh :
      find lease_key account db.account_worker_state ≡ none
      → LeasesAccount account worker job (now + lease) db true (upsert_account now new_row db)
  unfolding new_row
  upsert_fresh fresh =
      rw (fresh, upsert_account)
        (
          refl,
          λ e. ground (arith, find-append lease_key account db.account_worker_state new_row),
          λ e. cc,
        )

  upsert_taken :
      (a : AccountLease)
      → find lease_key account db.account_worker_state ≡ some a
      → LeasesAccount account worker job
          (now + lease)
          db
          (is_unheld_account now a)
          (upsert_account now new_row db)
  unfolding new_row
  upsert_taken a here =
      let q = is_unheld_account now in
      let f = overwrite_account new_row in
      rw (here, upsert_account)
        (
          written account q f db unique a here (λ x. refl),
          λ e. ground (arith, done account q f db unique a here (λ x. refl) e),
          refused account q f db unique a here (λ x. refl),
        )

  choose :
      (refused free : Bool) {w : Db × Bool}
      → LeasesAccount account worker job (now + lease) db free w
      → LeasesAccount account worker job
          (now + lease)
          db
          (free && not refused)
          (if refused then (db, false) else w)
  choose true true t = (refl, λ e. cc, λ e. refl)
  choose true false t = (refl, λ e. cc, λ e. refl)
  choose false true t = t
  choose false false t = t

  -- A claim of an account wins exactly if the account has no row yet, or its row names nobody with
  -- a lease that still runs, the takeover grace included. A claim that wins leaves the worker with
  -- the lease, for the job and the length asked; one that loses changes nothing.
  pub claim_account-Leases :
      LeasesAccount account worker job
        (now + lease)
        db
        (account_wins worker now grace (find lease_key account db.account_worker_state))
        (claim_account now account worker job lease grace db)
  unfolding claim_account get_account new_row
  claim_account-Leases = elim (Option-cases (find lease_key account db.account_worker_state)) [
    | inl fresh ↦ rw (fresh, claim_account, get_account) (upsert_fresh fresh)
    | inr (a, here) ↦
        rw (here, claim_account, get_account)
          (choose (refuses worker now grace a.worker_id a.worker_lease_until)
            (is_unheld_account now a) (upsert_taken a here))
  ]

-- The two claims differ on a worker that holds its lease already: it loses a second claim of the
-- account while the lease runs, and nothing changes, though no other worker is in the way.
claim_account_again :
    (now account worker job lease grace : ℕ) (db : Db) {until : Moment} (a : AccountLease)
    → IsUnique lease_key db.account_worker_state
    → find lease_key account db.account_worker_state ≡ some a
    → a.worker_id ≡ some worker
    → a.worker_lease_until ≡ some until
    → now < until
    → claim_account now account worker job lease grace db ≡ (db, false)
claim_account_again now account worker job lease grace db {until} a unique here mine ends live =
    let law = claim_account-Leases now account worker job lease grace db unique in
    let lost : (claim_account now account worker job lease grace db).1 ≡ false =
      law.0 ∙ rw here (ground arith) in
    λ i. (law.2 lost i, lost i)
