-- ===== src/ResultRepo/Fencing.antt =====
-- The token of an item fences its writes: what a claim and a guarded write come to, on each branch.
use tools_tele_t_ng.Base.{
  ◌↔◌, first_where-find, ℕ, ◌≡◌, refl, ap, Bool, true, false, ◌&&◌, none, some, find, IsUnique,
  write_lem, if◌then◌else◌, arith, Option-cases, inl, inr,
}
use tools_tele_t_ng.Models.Status.{CheckStatus}
use tools_tele_t_ng.Models.Rows.{Key, CheckItem}
use tools_tele_t_ng.Database.{Db, item_key, job_key}
use tools_tele_t_ng.JobRepo.Jobs.{get}
use tools_tele_t_ng.JobRepo.JobLease.{holds_lease, is_job_owned_by}
use tools_tele_t_ng.ResultRepo.Items.{is_selectable}
use tools_tele_t_ng.ResultRepo.Claims.{
  Owner, worker_of, owner_guard, job_is_leased, claim_row, mark_processing,
}
use tools_tele_t_ng.ResultRepo.Results.{Outcome, Guards, token_guard, settle_row, save_result}

-- The EXISTS of a guard is the repository's own test of ownership.
pub job_is_leased-eq-is_job_owned_by :
    (now job worker : ℕ) (db : Db)
    → IsUnique job_key db.jobs
    → job_is_leased now job worker db ≡ is_job_owned_by now job worker db
unfolding is_job_owned_by get
job_is_leased-eq-is_job_owned_by now job worker db u =
    elim (Option-cases (find job_key job db.jobs)) [
      | inl gone ↦ ground (arith, first_where-find job_key job (holds_lease worker now) db.jobs u)
      | inr (j, here) ↦
          ground (arith, first_where-find job_key job (holds_lease worker now) db.jobs u)
    ]

module _ (now item_id : ℕ) (db : Db) (i : CheckItem) (unique : IsUnique item_key db.check_items)
    (here : find item_key item_id db.check_items ≡ some i) where
  pub mark_processing_lem :
      (token : Key) (owner : Owner)
      → let (db', claimed) = mark_processing now token item_id owner db in
        let granted = is_selectable now i && owner_guard now owner db i in
        (claimed ≡ (if granted then some token else none))
        × (find item_key item_id db'.check_items
            ≡ some (if granted then claim_row now token i else i))
        × (granted ≡ false → db' ≡ db)
  unfolding mark_processing
  mark_processing_lem token owner =
      let q = λ (i : CheckItem). is_selectable now i && owner_guard now owner db i in
      let law =
        write_lem item_key item_id q (claim_row now token) db.check_items i (λ i. refl) unique
          here in
      (
        ap (λ (b : Bool). if b then some token else none) law.0,
        law.1,
        λ e. ap (λ rows. record db { check_items = rows }) (law.2 e),
      )

  pub save_result_lem :
      (outcome : Outcome) (guards : Guards)
      → let (db', written) = save_result now item_id outcome guards db in
        let allowed = token_guard guards.processing_token i && owner_guard now guards.owner db i in
        (written ≡ allowed)
        × (find item_key item_id db'.check_items
            ≡ some (if allowed then settle_row now outcome i else i))
        × (allowed ≡ false → db' ≡ db)
  unfolding save_result
  save_result_lem outcome guards =
      let q = λ (i : CheckItem).
        token_guard guards.processing_token i && owner_guard now guards.owner db i in
      let law =
        write_lem item_key item_id q (settle_row now outcome) db.check_items i (λ i. refl) unique
          here in
      (law.0, law.1, λ e. ap (λ rows. record db { check_items = rows }) (law.2 e))

-- A worker's guards: the token of its claim, and its lease on the job.
abbrev pub guards_of : Key → Key → Key → Guards
guards_of token job worker = record { processing_token = some token; owner = worker_of job worker }

-- A write under a worker's guards is made exactly if the item is still PROCESSING under the very
-- token, belongs to the job, and the worker owns the job by a lease that still runs. Then the item
-- is settled as asked, and its token is gone; otherwise nothing changes.
pub save_result-fenced :
    (now item_id : ℕ) (db : Db) (i : CheckItem) (outcome : Outcome) (token job worker : Key)
    → IsUnique item_key db.check_items
    → IsUnique job_key db.jobs
    → find item_key item_id db.check_items ≡ some i
    → let (db', written) = save_result now item_id outcome (guards_of token job worker) db in
      ((written ≡ true) ↔ (
        (i.status ≡ CheckStatus.processing)
        × (i.processing_token ≡ some token)
        × (i.job_id ≡ job)
        × (is_job_owned_by now job worker db ≡ true)))
      × (written ≡ true → find item_key item_id db'.check_items ≡ some (settle_row now outcome i))
      × (written ≡ false → db' ≡ db)
save_result-fenced now item_id db i outcome token job worker unique unique_jobs here =
    let law = save_result_lem now item_id db i unique here outcome (guards_of token job worker) in
    let owned = job_is_leased-eq-is_job_owned_by now i.job_id worker db unique_jobs in
    (ground (arith, law, owned), ground (arith, law), ground (arith, law))
