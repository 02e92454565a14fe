-- ===== src/Accounts/QrEntries.antt =====
-- The entries of QR logins: what each write to one of them keeps.
use tools_tele_t_ng.Base.{
  ◌≡◌, ◌≢◌, refl, subst, ◌∙◌, Bool, true, false, some, String, List, [], ◌∷◌, ◌++◌, find, find-key,
  find-append, find-update_id, find-update_where, find-without, update_where, without, is_null,
  ◌==◌, arith, Option-cases, Bool-cases, inl, inr,
}
use tools_tele_t_ng.Models.Rows.{Key}
use tools_tele_t_ng.Accounts.Tables.{Web}
use tools_tele_t_ng.Accounts.Sessions.{Installed, refused, import_error, installed}
use tools_tele_t_ng.Accounts.Qr.{
  QrState, QrEntry, QrWeb, entry_id, new_entry, write_entry, completed_entry, finalized,
  failed_entry, Closing, closed, closing_times_out, closing_raises, left_entry, scan_result,
  end_task, is_completed, is_wait_2fa, refreshed,
}

-- A login that is completed has an account and no task, and one that waits for a password no task.
pub record IsHonest (e : QrEntry) : Type 0 where
  pub ended : is_completed e.state ≡ true → (e.has_task ≡ false) × (is_null e.account_id ≡ false)
  pub idle : is_wait_2fa e.state ≡ true → e.has_task ≡ false

abbrev pub AreHonest : List QrEntry → Type 0
AreHonest pending = (k : Key) (e : QrEntry) → find entry_id k pending ≡ some e → IsHonest e

the_same : (c d : QrEntry) → some c ≡ some d → c ≡ d
the_same c d e = cc

pub update-AreHonest :
    (qr_id : Key) (f : QrEntry → QrEntry) (pending : List QrEntry) (e : QrEntry)
    → ((d : QrEntry) → entry_id (f d) ≡ entry_id d)
    → find entry_id qr_id pending ≡ some e
    → IsHonest (f e)
    → AreHonest pending
    → AreHonest (update_where (λ d. d.qr_id == qr_id) f pending)
update-AreHonest qr_id f pending e keeps here good honest k d there =
    elim (Bool-cases (k == qr_id)) [
      | inl mine ↦
          let same : f e ≡ d =
            ground (arith, find-update_id entry_id qr_id f pending e keeps here) in
          subst IsHonest same good
      | inr other ↦
          let seen = find-update_where entry_id k (λ d. d.qr_id == qr_id) f pending keeps in
          elim (Option-cases (find entry_id k pending)) [
            | inl gone ↦ absurd (ground (arith, seen))
            | inr (c, old) ↦
                let key = find-key entry_id k pending c old in
                let same : c ≡ d = ground (arith, seen, key) in subst IsHonest same (honest k c old)
          ]
    ]

-- An entry that is written with a state that is neither COMPLETED nor WAIT_2FA.
pub plain-IsHonest :
    (e : QrEntry) → is_completed e.state ≡ false → is_wait_2fa e.state ≡ false → IsHonest e
plain-IsHonest e open_still unasked = record {
  ended = λ over. absurd (ground arith);
  idle = λ x. absurd (ground arith);
}

pub completed_entry-IsHonest :
    (k : Key) (e : QrEntry) → e.has_task ≡ false → IsHonest (completed_entry k e)
completed_entry-IsHonest k e idle = record { ended = λ x. (idle, refl); idle = λ x. idle }

left_entry-IsHonest :
    (message : String) (closing : Closing) (e : QrEntry)
    → IsHonest e
    → IsHonest (left_entry message closing e)
left_entry-IsHonest message closed e honest = honest
left_entry-IsHonest message closing_times_out e honest = plain-IsHonest _ refl refl
left_entry-IsHonest message closing_raises e honest = plain-IsHonest _ refl refl

left_entry-id :
    (message : String) (closing : Closing) (e : QrEntry)
    → entry_id (left_entry message closing e) ≡ entry_id e
left_entry-id message closed e = refl
left_entry-id message closing_times_out e = refl
left_entry-id message closing_raises e = refl

end_task-IsHonest : (e : QrEntry) → IsHonest e → IsHonest (end_task e)
end_task-IsHonest e honest = record {
  ended = λ over. (refl, (honest.ended over).1);
  idle = λ x. refl;
}

pub scan_result-AreHonest :
    (qr_id : Key) (message : String) (closing : Closing) (end : Installed × Web) (q : QrWeb)
    (e : QrEntry)
    → find entry_id qr_id q.pending ≡ some e
    → AreHonest q.pending
    → AreHonest (scan_result qr_id message closing end q).pending
scan_result-AreHonest qr_id message closing (installed k, w) q e here honest =
    let ended = find-update_id entry_id qr_id end_task q.pending e (λ d. refl) here in
    let good = completed_entry-IsHonest k (end_task e) refl in
    let rows = (write_entry qr_id end_task q).pending in
    update-AreHonest qr_id (left_entry message closing)
      (finalized qr_id (installed k, w) (write_entry qr_id end_task q)).pending
      (completed_entry k (end_task e)) (left_entry-id message closing)
      (find-update_id entry_id qr_id (completed_entry k) rows (end_task e) (λ d. refl) ended)
      (left_entry-IsHonest message closing (completed_entry k (end_task e)) good)
      (update-AreHonest qr_id (completed_entry k) rows (end_task e) (λ d. refl) ended good
        (update-AreHonest qr_id end_task q.pending e (λ d. refl) here
          (end_task-IsHonest e (honest qr_id e here)) honest))
scan_result-AreHonest qr_id message closing (refused fault, w) q e here honest =
    update-AreHonest qr_id (failed_entry message) q.pending e (λ d. refl) here
      (plain-IsHonest (failed_entry message e) refl refl) honest
scan_result-AreHonest qr_id message closing (import_error, w) q e here honest =
    update-AreHonest qr_id (failed_entry message) q.pending e (λ d. refl) here
      (plain-IsHonest (failed_entry message e) refl refl) honest

pub refreshed-id : (renews : Bool) (e : QrEntry) → entry_id (refreshed renews e) ≡ entry_id e
refreshed-id true e = refl
refreshed-id false e = refl

pub append-AreHonest :
    (qr_id : Key) (pending : List QrEntry)
    → AreHonest pending
    → AreHonest (pending ++ new_entry qr_id ∷ [])
append-AreHonest qr_id pending honest k d there =
    let appended = find-append entry_id k pending (new_entry qr_id) in
    elim (Option-cases (find entry_id k pending)) [
      | inr (c, old) ↦ subst IsHonest (the_same c d (ground (arith, appended))) (honest k c old)
      | inl gone ↦ elim (Bool-cases (qr_id == k)) [
        | inl mine ↦
            subst IsHonest (the_same (new_entry qr_id) d (ground (arith, appended)))
              (plain-IsHonest (new_entry qr_id) refl refl)
        | inr other ↦ absurd (ground (arith, appended))
      ]
    ]

pub without-AreHonest :
    (qr_id : Key) (pending : List QrEntry)
    → AreHonest pending
    → AreHonest (without entry_id qr_id pending)
without-AreHonest qr_id pending honest k d there =
    let left = find-without entry_id k qr_id pending in
    elim (Bool-cases (k == qr_id)) [
      | inl mine ↦ absurd (ground (arith, left))
      | inr other ↦ honest k d (ground (arith, left))
    ]

-- A write to one login leaves the others.
pub update-other :
    (qr_id k : Key) (f : QrEntry → QrEntry) (pending : List QrEntry)
    → ((d : QrEntry) → entry_id (f d) ≡ entry_id d)
    → qr_id ≢ k
    → find entry_id k (update_where (λ d. d.qr_id == qr_id) f pending) ≡ find entry_id k pending
update-other qr_id k f pending keeps ne =
    let seen = find-update_where entry_id k (λ d. d.qr_id == qr_id) f pending keeps in
    elim (Option-cases (find entry_id k pending)) [
      | inl gone ↦ ground (arith, seen)
      | inr (c, old) ↦ ground (arith, seen, find-key entry_id k pending c old)
    ]

pub finalized-other :
    (qr_id k : Key) (end : Installed × Web) (q : QrWeb)
    → qr_id ≢ k
    → find entry_id k (finalized qr_id end q).pending ≡ find entry_id k q.pending
finalized-other qr_id k (installed j, w) q ne =
    update-other qr_id k (completed_entry j) q.pending (λ d. refl) ne
finalized-other qr_id k (refused fault, w) q ne = refl
finalized-other qr_id k (import_error, w) q ne = refl

pub scan_result-other :
    (qr_id k : Key) (message : String) (closing : Closing) (end : Installed × Web) (q : QrWeb)
    → qr_id ≢ k
    → find entry_id k (scan_result qr_id message closing end q).pending ≡ find entry_id k q.pending
scan_result-other qr_id k message closing (installed j, w) q ne =
    update-other qr_id k (left_entry message closing)
      (finalized qr_id (installed j, w) (write_entry qr_id end_task q)).pending
      (left_entry-id message closing) ne
    ∙ finalized-other qr_id k (installed j, w) (write_entry qr_id end_task q) ne
    ∙ update-other qr_id k end_task q.pending (λ d. refl) ne
scan_result-other qr_id k message closing (refused fault, w) q ne =
    update-other qr_id k (failed_entry message) q.pending (λ d. refl) ne
scan_result-other qr_id k message closing (import_error, w) q ne =
    update-other qr_id k (failed_entry message) q.pending (λ d. refl) ne

pub completed-unasked : (s : QrState) → is_completed s ≡ true → is_wait_2fa s ≡ false
completed-unasked QrState.completed over = refl
completed-unasked QrState.wait_scan over = refl
completed-unasked QrState.wait_2fa over = absurd (ground arith)
completed-unasked QrState.expired over = refl
completed-unasked QrState.failed over = refl
