-- ===== src/JobRepo/AccountLeases.antt =====
-- JobRepository: the lease of a Telegram account, which at most one job at a time may hold.
use tools_tele_t_ng.Base.{
  ℕ, Bool, true, false, not, ◌&&◌, ◌||◌, Option, none, some, [], ◌∷◌, ◌++◌, find, first_where,
  holds, after, due, is_null, ◌==◌, if◌then◌else◌,
}
use tools_tele_t_ng.Models.Clock.{Moment, iso_from_offset}
use tools_tele_t_ng.Models.Rows.{Key}
use tools_tele_t_ng.Database.{Db, AccountLease, lease_key, update_accounts, write_accounts}
use tools_tele_t_ng.JobRepo.JobLease.{refuses, is_live}

unfoldable pub get_account : Key → Db → Option AccountLease
get_account account db = find lease_key account db.account_worker_state

abbrev pub is_unheld_account : Moment → AccountLease → Bool
is_unheld_account now a =
    is_null a.worker_id || (is_null a.worker_lease_until || due a.worker_lease_until now)

abbrev pub account_lease : Moment → Moment → Key → Key → Key → AccountLease
account_lease now lease_until account worker job_id = record {
  account_key = account;
  worker_id = some worker;
  worker_heartbeat_at = some now;
  worker_lease_until = some lease_until;
  job_id = some job_id;
  updated_at = now;
}

-- `DO UPDATE SET`: every column but the key comes from the new row.
abbrev pub overwrite_account : AccountLease → AccountLease → AccountLease
overwrite_account new a = record new { account_key = a.account_key }

-- `INSERT … ON CONFLICT(account_key) DO UPDATE … WHERE` the row is not held.
abbrev pub upsert_account : Moment → AccountLease → Db → Db × Bool
upsert_account now new db = elim (find lease_key new.account_key db.account_worker_state) [
  | none ↦ (record db { account_worker_state = db.account_worker_state ++ new ∷ [] }, true)
  | some _ ↦
      write_accounts (λ a. (a.account_key == new.account_key) && is_unheld_account now a)
        (overwrite_account new) db
]

unfoldable pub claim_account : Moment → Key → Key → Key → ℕ → ℕ → Db → Db × Bool
unfolding get_account
claim_account now account worker job_id lease_seconds grace db =
    let new = account_lease now (iso_from_offset now lease_seconds) account worker job_id in
    elim (get_account account db) [
      | none ↦ upsert_account now new db
      | some row ↦
          if refuses worker now grace row.worker_id row.worker_lease_until
          then (db, false)
          else upsert_account now new db
    ]

abbrev pub holds_account : Key → Key → AccountLease → Bool
holds_account worker job_id a = holds a.worker_id worker && holds a.job_id job_id

unfoldable pub renew_account : Moment → Key → Key → Key → ℕ → Db → Db × Bool
renew_account now account worker job_id lease_seconds =
    write_accounts
      (λ a.
        (a.account_key == account)
        && (holds_account worker job_id a && after a.worker_lease_until now))
      (λ a. record a {
        worker_heartbeat_at = some now;
        worker_lease_until = some (iso_from_offset now lease_seconds);
        updated_at = now;
      })

unfoldable pub is_account_owned_by : Moment → Key → Key → Key → Db → Bool
unfolding get_account
is_account_owned_by now account worker job_id db = elim (get_account account db) [
  | none ↦ false
  | some row ↦ holds_account worker job_id row && after row.worker_lease_until now
]

-- ` AND job_id = ?` only if a job is given.
abbrev pub job_guard : Option Key → AccountLease → Bool
job_guard none a = true
job_guard (some job_id) a = holds a.job_id job_id

unfoldable pub release_account : Moment → Key → Key → Option Key → Db → Db
release_account now account worker job_id =
    update_accounts
      (λ a. (a.account_key == account) && (holds a.worker_id worker && job_guard job_id a))
      (λ a. record a {
        worker_id = none;
        worker_heartbeat_at = none;
        worker_lease_until = none;
        job_id = none;
        updated_at = now;
      })

unfoldable pub has_live_account_lease_for_job : Moment → Key → Db → Bool
has_live_account_lease_for_job now job_id db = not (
    is_null (
      first_where
        (λ a. holds a.job_id job_id && not (is_null a.worker_id) && after a.worker_lease_until now)
        db.account_worker_state))

unfoldable pub is_account_owned : Moment → Key → Db → Bool
unfolding get_account
is_account_owned now account db = elim (get_account account db) [
  | none ↦ false
  | some row ↦ is_live now row.worker_id row.worker_lease_until
]
