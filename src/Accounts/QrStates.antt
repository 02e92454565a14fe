-- ===== src/Accounts/QrStates.antt =====
-- The states of a QR login.
use tools_tele_t_ng.Base.{
  ◌≡◌, ◌≢◌, refl, Bool, true, false, Option, some, String, List, [], ◌∷◌, find, find-append,
  find-without, ◌==◌, arith, Option-cases, Bool-cases, inl, inr,
}
use tools_tele_t_ng.Models.Clock.{Moment}
use tools_tele_t_ng.Models.Rows.{Key}
use tools_tele_t_ng.PhoneUtils.{PhoneNumbers}
use tools_tele_t_ng.Accounts.Tables.{Web}
use tools_tele_t_ng.Accounts.Manager.{Env}
use tools_tele_t_ng.Accounts.Sessions.{Found, Installed, refused, import_error, installed}
use tools_tele_t_ng.Accounts.Qr.{
  QrEntry, QrWeb, entry_id, new_entry, completed_entry, finalized, Scan, scanned, password_needed,
  timed_out, scan_raises, failed_entry, Closing, finalize_qr, wait_qr, task_ends, start_qr_login,
  is_completed, is_wait_2fa, refreshed, refresh_qr, submit_qr_2fa, cancel_qr,
}
use tools_tele_t_ng.Accounts.QrEntries.{
  AreHonest, IsHonest, append-AreHonest, completed-unasked, completed_entry-IsHonest,
  finalized-other, plain-IsHonest, refreshed-id, scan_result-AreHonest, scan_result-other,
  update-AreHonest, update-other, without-AreHonest,
}

-- What happens to the QR logins: a request, or the end of a task.
pub data QrCall : Type 0 where
  starts refreshes : Key → Bool → QrCall
  ends : Key → String → Scan → QrCall
  submits : Key → Bool → Key → Found → Closing → QrCall
  cancels : Key → QrCall

-- The call cancels the login.
abbrev pub Cancels : Key → QrCall → Type 0
Cancels k (cancels qr_id) = qr_id ≡ k
Cancels k _ = ⊥

abbrev pub NoneCancels : Key → List (Moment × QrCall) → Type 0
NoneCancels k [] = Unit {0}
NoneCancels k ((now, c) ∷ cs) = (¬ (Cancels k c)) × NoneCancels k cs

module _ (p : PhoneNumbers) (region : Option String) (env : Env) where
  unfoldable pub qr_call : Moment → QrCall → QrWeb → QrWeb
  qr_call now (starts qr_id connects) q = (start_qr_login env qr_id connects q).1
  qr_call now (refreshes qr_id renews) q = (refresh_qr qr_id renews q).1
  qr_call now (ends qr_id message scan) q = task_ends p region env now qr_id message scan q
  qr_call now (submits qr_id signs_in fresh f closing) q =
      (submit_qr_2fa p region env now qr_id signs_in fresh f closing q).1
  qr_call now (cancels qr_id) q = cancel_qr qr_id q

  abbrev pub run_qr_calls : List (Moment × QrCall) → QrWeb → QrWeb
  run_qr_calls [] q = q
  run_qr_calls ((now, c) ∷ cs) q = run_qr_calls cs (qr_call now c q)

  wait_qr-AreHonest :
      (now : Moment) (qr_id : Key) (message : String) (scan : Scan) (q : QrWeb) (e : QrEntry)
      → find entry_id qr_id q.pending ≡ some e
      → AreHonest q.pending
      → AreHonest (wait_qr p region env now qr_id message scan q).pending
  unfolding wait_qr
  wait_qr-AreHonest now qr_id message (scanned fresh f closing) q e here honest =
      scan_result-AreHonest qr_id message closing (finalize_qr p region env now fresh f q.web) q e
        here honest
  wait_qr-AreHonest now qr_id message password_needed q e here honest =
      update-AreHonest qr_id _ q.pending e (λ d. refl) here
        (record { ended = λ over. absurd (ground arith); idle = λ x. refl }) honest
  wait_qr-AreHonest now qr_id message timed_out q e here honest =
      update-AreHonest qr_id _ q.pending e (λ d. refl) here (plain-IsHonest _ refl refl) honest
  wait_qr-AreHonest now qr_id message scan_raises q e here honest =
      update-AreHonest qr_id (failed_entry message) q.pending e (λ d. refl) here
        (plain-IsHonest _ refl refl) honest

  refreshed-IsHonest :
      (renews : Bool) (e : QrEntry)
      → is_completed e.state ≡ false
      → IsHonest e
      → IsHonest (refreshed renews e)
  refreshed-IsHonest true e open_still honest = plain-IsHonest _ refl refl
  refreshed-IsHonest false e open_still honest = record {
    ended = λ over. absurd (ground arith);
    idle = λ x. refl;
  }

  finalized-AreHonest :
      (qr_id : Key) (end : Installed × Web) (q : QrWeb) (e : QrEntry)
      → find entry_id qr_id q.pending ≡ some e
      → e.has_task ≡ false
      → AreHonest q.pending
      → AreHonest (finalized qr_id end q).pending
  finalized-AreHonest qr_id (installed k, w) q e here idle honest =
      update-AreHonest qr_id (completed_entry k) q.pending e (λ d. refl) here
        (completed_entry-IsHonest k e idle) honest
  finalized-AreHonest qr_id (refused fault, w) q e here idle honest = honest
  finalized-AreHonest qr_id (import_error, w) q e here idle honest = honest

  qr_call-AreHonest :
      (now : Moment) (c : QrCall) (q : QrWeb)
      → AreHonest q.pending
      → AreHonest (qr_call now c q).pending
  unfolding qr_call start_qr_login refresh_qr task_ends submit_qr_2fa cancel_qr
  qr_call-AreHonest now (starts qr_id connects) q honest = elim (Bool-cases env.has_credentials) [
    | inr bare ↦ rw bare honest
    | inl ready ↦ elim (Bool-cases connects) [
      | inl made ↦ rw ready (rw made (append-AreHonest qr_id q.pending honest))
      | inr lost ↦ rw ready (rw lost honest)
    ]
  ]
  qr_call-AreHonest now (refreshes qr_id renews) q honest =
      elim (Option-cases (find entry_id qr_id q.pending)) [
        | inl gone ↦ rw (gone, qr_call, refresh_qr) honest
        | inr (e, here) ↦ elim (Bool-cases (is_completed e.state)) [
          | inl over ↦ rw (here, qr_call, refresh_qr) (rw over honest)
          | inr open_still ↦
              rw (here, qr_call, refresh_qr)
                (rw open_still (
                  update-AreHonest qr_id (refreshed renews) q.pending e (refreshed-id renews) here
                    (refreshed-IsHonest renews e open_still (honest qr_id e here)) honest))
        ]
      ]
  qr_call-AreHonest now (ends qr_id message scan) q honest =
      elim (Option-cases (find entry_id qr_id q.pending)) [
        | inl gone ↦ rw (gone, qr_call, task_ends) honest
        | inr (e, here) ↦ elim (Bool-cases e.has_task) [
          | inr done ↦ rw (here, qr_call, task_ends) (rw done honest)
          | inl waits ↦
              rw (here, qr_call, task_ends)
                (rw waits (wait_qr-AreHonest now qr_id message scan q e here honest))
        ]
      ]
  qr_call-AreHonest now (submits qr_id signs_in fresh f closing) q honest =
      elim (Option-cases (find entry_id qr_id q.pending)) [
        | inl gone ↦ rw (gone, qr_call, submit_qr_2fa) honest
        | inr (e, here) ↦ elim (Bool-cases (is_wait_2fa e.state)) [
          | inr other ↦ rw (here, qr_call, submit_qr_2fa) (rw other honest)
          | inl asked ↦ elim (Bool-cases signs_in) [
            | inr denied ↦ rw (here, qr_call, submit_qr_2fa) (rw asked (rw denied honest))
            | inl taken ↦
                rw (here, qr_call, submit_qr_2fa)
                  (rw asked (
                    rw taken (
                      finalized-AreHonest qr_id (finalize_qr p region env now fresh f q.web) q e
                        here ((honest qr_id e here).idle asked) honest)))
          ]
        ]
      ]
  qr_call-AreHonest now (cancels qr_id) q honest = without-AreHonest qr_id q.pending honest

  wait_qr-other :
      (now : Moment) (qr_id k : Key) (message : String) (scan : Scan) (q : QrWeb)
      → qr_id ≢ k
      → find entry_id k (wait_qr p region env now qr_id message scan q).pending
        ≡ find entry_id k q.pending
  unfolding wait_qr
  wait_qr-other now qr_id k message (scanned fresh f closing) q ne =
      scan_result-other qr_id k message closing (finalize_qr p region env now fresh f q.web) q ne
  wait_qr-other now qr_id k message password_needed q ne =
      update-other qr_id k _ q.pending (λ d. refl) ne
  wait_qr-other now qr_id k message timed_out q ne = update-other qr_id k _ q.pending (λ d. refl) ne
  wait_qr-other now qr_id k message scan_raises q ne =
      update-other qr_id k (failed_entry message) q.pending (λ d. refl) ne

  module _ (now : Moment) (q : QrWeb) (k : Key) (e : QrEntry)
      (here : find entry_id k q.pending ≡ some e) (over : is_completed e.state ≡ true)
      (good : IsHonest e) where
    Kept : QrWeb → Type 0
    Kept r = find entry_id k r.pending ≡ some e

    start-Kept : (qr_id : Key) (connects : Bool) → Kept (qr_call now (starts qr_id connects) q)
    unfolding Kept qr_call start_qr_login
    start-Kept qr_id connects =
        ground (arith, here, find-append entry_id k q.pending (new_entry qr_id))

    refresh-Kept : (qr_id : Key) (renews : Bool) → Kept (qr_call now (refreshes qr_id renews) q)
    unfolding Kept qr_call refresh_qr
    refresh-Kept qr_id renews = elim (Bool-cases (qr_id == k)) [
      | inl mine ↦ ground (arith, here, over)
      | inr other ↦ ground (
        arith,
        here,
        update-other qr_id k (refreshed renews) q.pending (refreshed-id renews) (λ x. ground arith),
      )
    ]

    end-Kept :
        (qr_id : Key) (message : String) (scan : Scan)
        → Kept (qr_call now (ends qr_id message scan) q)
    unfolding Kept qr_call task_ends
    end-Kept qr_id message scan = elim (Bool-cases (qr_id == k)) [
      | inl mine ↦ ground (arith, here, (good.ended over).0)
      | inr other ↦
          ground (arith, here, wait_qr-other now qr_id k message scan q (λ x. ground arith))
    ]

    submit-Kept :
        (qr_id : Key) (signs_in : Bool) (fresh : Key) (f : Found) (closing : Closing)
        → Kept (qr_call now (submits qr_id signs_in fresh f closing) q)
    unfolding Kept qr_call submit_qr_2fa
    submit-Kept qr_id signs_in fresh f closing = elim (Bool-cases (qr_id == k)) [
      | inl mine ↦ ground (arith, here, completed-unasked e.state over)
      | inr other ↦ ground (
        arith,
        here,
        finalized-other qr_id k (finalize_qr p region env now fresh f q.web) q (λ x. ground arith),
      )
    ]

    qr_call-Kept :
        (c : QrCall) → ¬ (Cancels k c) → find entry_id k (qr_call now c q).pending ≡ some e
    unfolding Kept qr_call cancel_qr
    qr_call-Kept (starts qr_id connects) stays = start-Kept qr_id connects
    qr_call-Kept (refreshes qr_id renews) stays = refresh-Kept qr_id renews
    qr_call-Kept (ends qr_id message scan) stays = end-Kept qr_id message scan
    qr_call-Kept (submits qr_id signs_in fresh f closing) stays =
        submit-Kept qr_id signs_in fresh f closing
    qr_call-Kept (cancels qr_id) stays =
        ground (arith, here, find-without entry_id k qr_id q.pending, stays)

  -- Over any requests about QR logins and any ends of their tasks, each of which runs to its end before
  -- the next one about the same login: a login that is COMPLETED has an account, and no task waits for
  -- it; none waits for one that asks for a password; and a login that such a request or end has left
  -- COMPLETED stays as it is until it is cancelled, whatever is refreshed, scanned, submitted or over
  -- time.
  pub run_qr_calls-AreHonest :
      (cs : List (Moment × QrCall)) (q : QrWeb)
      → AreHonest q.pending
      → AreHonest (run_qr_calls cs q).pending
        × ((k : Key) (e : QrEntry)
            → find entry_id k q.pending ≡ some e
            → is_completed e.state ≡ true
            → NoneCancels k cs
            → find entry_id k (run_qr_calls cs q).pending ≡ some e)
  run_qr_calls-AreHonest [] q honest = (honest, λ k e here over stays. here)
  run_qr_calls-AreHonest ((now, c) ∷ cs) q honest =
      let (still, keeps) =
        run_qr_calls-AreHonest cs (qr_call now c q) (qr_call-AreHonest now c q honest) in
      (
        still,
        λ k e here over stays.
            keeps k e (qr_call-Kept now q k e here over (honest k e here) c stays.0) over stays.1,
      )
