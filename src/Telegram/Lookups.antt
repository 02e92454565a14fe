-- ===== src/Telegram/Lookups.antt =====
-- What a lookup makes of Telegram's answer.
use text.Mathlib.TextEquality.{eq_iff}
use text.Mathlib.Text.{◌==◌ as ◌≈◌}
use tools_tele_t_ng.Base.{
  ℕ, ◌≡◌, refl, sym, ◌∙◌, subst, ◌↔◌, ◌⊎◌, inl, inr, Bool, true, false, Option, none, some, String,
  List, [], ◌∷◌, ◌==◌, arith, Bool-cases,
}
use tools_tele_t_ng.Models.Status.{CheckStatus, is_terminal_status, is_found, is_not_discoverable}
use tools_tele_t_ng.Models.Rows.{CheckResponse}
use tools_tele_t_ng.Telegram.Classify.{
  RetryContact, by_client_id, by_phone, TelegramUser, ImportResponse, ImportAnswer, flood_wait,
  rpc_call_fail, network_failure, unexpected, imported, asks_retry, by_users,
  classify_import_response, do_check_phone, check_phone,
}

-- The contact stands in the list, under its number or as a text.
abbrev pub IsListed : ℕ → String → List RetryContact → Type 0
IsListed client_id phone [] = ⊥
IsListed client_id phone (by_client_id n ∷ rest) = (n ≡ client_id) ⊎ IsListed client_id phone rest
IsListed client_id phone (by_phone p ∷ rest) = (p ≡ phone) ⊎ IsListed client_id phone rest

absurd_eq {ℓ} : {A : Type ℓ} → false ≡ true → A
absurd_eq e = cc

found-terminal : (s : CheckStatus) → is_found s ≡ true → is_terminal_status s ≡ true
found-terminal CheckStatus.found e = refl
found-terminal _ e = ground arith

not_discoverable-terminal :
    (s : CheckStatus) → is_not_discoverable s ≡ true → is_terminal_status s ≡ true
not_discoverable-terminal CheckStatus.not_discoverable e = refl
not_discoverable-terminal _ e = ground arith

same_response : {r i : ImportResponse} → imported r ≡ imported i → r ≡ i
same_response e = cc

asks_retry_iff :
    (client_id : ℕ) (phone : String) (cs : List RetryContact)
    → (asks_retry client_id phone cs ≡ true) ↔ IsListed client_id phone cs
unfolding asks_retry
asks_retry_iff client_id phone [] = (λ e. cc, λ h. absurd h)
asks_retry_iff client_id phone (by_client_id n ∷ rest) =
    let ih = asks_retry_iff client_id phone rest in
    (
      λ e. elim (Bool-cases (n == client_id)) [
        | inl same ↦ inl (ground arith)
        | inr other ↦ inr (ih.0 (ground arith))
      ],
      λ h. elim h [ inl e ↦ ground arith | inr listed ↦ ground (arith, ih.1 listed) ],
    )
asks_retry_iff client_id phone (by_phone p ∷ rest) =
    let ih = asks_retry_iff client_id phone rest in
    (
      λ e. elim (Bool-cases (p ≈ phone)) [
        | inl same ↦ inl ((eq_iff p phone).0 same)
        | inr other ↦ inr (ih.0 (ground arith))
      ],
      λ h. elim h [ inl e ↦ rw ((eq_iff p phone).1 e) | inr listed ↦ ground (arith, ih.1 listed) ],
    )

-- An answer that decides a lookup: a response that does not ask to retry the contact.
abbrev pub Decides : Bool → ImportAnswer → ℕ → String → ImportResponse → Type 0
Decides connected answer client_id phone r =
    (connected ≡ true) × (answer ≡ imported r) × ¬ (IsListed client_id phone r.retry_contacts)

-- What `check_phone` returns, against the answer.
pub record IsClassified (connected : Bool) (answer : ImportAnswer) (client_id : ℕ) (phone : String)
    (r : CheckResponse) : Type 0 where
  pub settled :
      (is_terminal_status r.status ≡ true)
      ↔ ((i : ImportResponse) × Decides connected answer client_id phone i)
  pub found :
      is_found r.status ≡ true
      → (i : ImportResponse) × (u : TelegramUser) × Decides connected answer client_id phone i
        × (i.users ≡ u ∷ [])
        × (r.telegram_user_id ≡ u.id)
  pub not_discoverable :
      is_not_discoverable r.status ≡ true
      → (i : ImportResponse) × Decides connected answer client_id phone i × (i.users ≡ [])
  pub waits :
      (n : ℕ) → (r.retry_after_seconds ≡ some n) ↔ ((connected ≡ true) × (answer ≡ flood_wait n))

-- A response that decides nothing is no response of a client that is there.
undecided :
    (connected : Bool) (answer : ImportAnswer) (client_id : ℕ) (phone : String) (r : CheckResponse)
    → ((i : ImportResponse) → ¬ (Decides connected answer client_id phone i))
    → is_terminal_status r.status ≡ false
    → ((n : ℕ) → (r.retry_after_seconds ≡ some n) ↔ ((connected ≡ true) × (answer ≡ flood_wait n)))
    → IsClassified connected answer client_id phone r
undecided connected answer client_id phone r never open_still waits = record {
  settled = (λ e. absurd_eq (sym open_still ∙ e), λ h. absurd (never h.0 h.1));
  found = λ e. absurd_eq (sym open_still ∙ found-terminal r.status e);
  not_discoverable = λ e. absurd_eq (sym open_still ∙ not_discoverable-terminal r.status e);
  waits = waits;
}

by_users-IsClassified :
    (client_id : ℕ) (phone : String) (users : List TelegramUser) (contacts : List RetryContact)
    (cleanup : Option String)
    → ¬ (IsListed client_id phone contacts)
    → IsClassified true
        (imported (record { users = users; retry_contacts = contacts }))
        client_id
        phone
        (by_users phone users cleanup)
unfolding by_users
by_users-IsClassified client_id phone [] contacts cleanup free = record {
  settled = (λ e. (_, (refl, refl, free)), λ h. refl);
  found = λ e. absurd_eq e;
  not_discoverable = λ e. (_, (refl, refl, free), refl);
  waits = λ n. (λ e. ground arith, λ h. ground arith);
}
by_users-IsClassified client_id phone (user ∷ []) contacts cleanup free = record {
  settled = (λ e. (_, (refl, refl, free)), λ h. refl);
  found = λ e. (_, user, (refl, refl, free), refl, refl);
  not_discoverable = λ e. absurd_eq e;
  waits = λ n. (λ e. ground arith, λ h. ground arith);
}
by_users-IsClassified client_id phone (user ∷ second ∷ rest) contacts cleanup free = record {
  settled = (λ e. (_, (refl, refl, free)), λ h. refl);
  found = λ e. absurd_eq e;
  not_discoverable = λ e. absurd_eq e;
  waits = λ n. (λ e. ground arith, λ h. ground arith);
}

do_check_phone-IsClassified :
    (answer : ImportAnswer) (client_id : ℕ) (phone : String) (cleanup : Option String)
    → IsClassified true answer client_id phone (do_check_phone answer phone client_id cleanup)
unfolding do_check_phone classify_import_response
do_check_phone-IsClassified (flood_wait seconds) client_id phone cleanup =
    undecided true (flood_wait seconds) client_id phone _ (λ i h. ground arith) refl
      (λ n. (λ e. ground arith, λ h. ground arith))
do_check_phone-IsClassified (rpc_call_fail e) client_id phone cleanup =
    undecided true (rpc_call_fail e) client_id phone _ (λ i h. ground arith) refl
      (λ n. (λ e. ground arith, λ h. ground arith))
do_check_phone-IsClassified (network_failure e) client_id phone cleanup =
    undecided true (network_failure e) client_id phone _ (λ i h. ground arith) refl
      (λ n. (λ e. ground arith, λ h. ground arith))
do_check_phone-IsClassified (unexpected e) client_id phone cleanup =
    undecided true (unexpected e) client_id phone _ (λ i h. ground arith) refl
      (λ n. (λ e. ground arith, λ h. ground arith))
do_check_phone-IsClassified (imported r) client_id phone cleanup =
    let listed = asks_retry_iff client_id phone r.retry_contacts in
    elim (Bool-cases (asks_retry client_id phone r.retry_contacts)) [
      | inl retry ↦
          rw (retry, classify_import_response)
            (undecided true (imported r) client_id phone _
              (λ i h. h.2 (
                subst (λ x. IsListed client_id phone x.retry_contacts) (same_response h.1)
                  (listed.0 retry)))
              refl (λ n. (λ e. ground arith, λ h. ground arith)))
      | inr free ↦
          rw (free, classify_import_response)
            (by_users-IsClassified client_id phone r.users r.retry_contacts cleanup
              (λ h. absurd_eq (sym free ∙ listed.1 h)))
    ]

-- A clean-up that fails leaves a note on the response, and nothing else.
by_users-cleanup :
    (phone : String) (users : List TelegramUser) (cleanup : Option String)
    → record (by_users phone users cleanup) { cleanup_error = none } ≡ by_users phone users none
unfolding by_users
by_users-cleanup phone [] cleanup = refl
by_users-cleanup phone (user ∷ []) cleanup = refl
by_users-cleanup phone (user ∷ second ∷ rest) cleanup = refl

check_phone-cleanup :
    (connected : Bool) (answer : ImportAnswer) (client_id : ℕ) (phone : String)
    (cleanup : Option String)
    → record (check_phone connected answer phone client_id cleanup) { cleanup_error = none }
      ≡ check_phone connected answer phone client_id none
unfolding check_phone do_check_phone classify_import_response
check_phone-cleanup false answer client_id phone cleanup = refl
check_phone-cleanup true (flood_wait seconds) client_id phone cleanup = refl
check_phone-cleanup true (rpc_call_fail e) client_id phone cleanup = refl
check_phone-cleanup true (network_failure e) client_id phone cleanup = refl
check_phone-cleanup true (unexpected e) client_id phone cleanup = refl
check_phone-cleanup true (imported r) client_id phone cleanup =
    elim (Bool-cases (asks_retry client_id phone r.retry_contacts)) [
      | inl retry ↦ rw (retry, classify_import_response)
      | inr free ↦ rw (free, classify_import_response) (by_users-cleanup phone r.users cleanup)
    ]

-- A lookup is settled (FOUND, NOT_DISCOVERABLE or PERMANENT_ERROR) exactly if the client is there
-- and Telegram returns a response that does not list the contact for a retry, under its number or
-- its text: no exception settles a number. FOUND comes with the identity of the only user of that
-- response, NOT_DISCOVERABLE from a response without users, and a wait is passed on exactly if
-- Telegram asked for one, at its length. Whether the contact could be deleted again changes
-- `cleanup_error` and nothing else.
pub check_phone-IsClassified :
    (connected : Bool) (answer : ImportAnswer) (client_id : ℕ) (phone : String)
    (cleanup : Option String)
    → let r = check_phone connected answer phone client_id cleanup in
      IsClassified connected answer client_id phone r
      × (record r { cleanup_error = none } ≡ check_phone connected answer phone client_id none)
unfolding check_phone
check_phone-IsClassified true answer client_id phone cleanup = (
  do_check_phone-IsClassified answer client_id phone cleanup,
  check_phone-cleanup true answer client_id phone cleanup,
)
check_phone-IsClassified false answer client_id phone cleanup = (
  undecided false answer client_id phone _ (λ i h. absurd_eq h.0) refl
      (λ n. (λ e. ground arith, λ h. absurd_eq h.0)),
  refl,
)
