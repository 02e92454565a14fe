-- ===== src/WebAuth/Lockout.antt =====
-- How long a client that fails is locked out.
use tools_tele_t_ng.Base.{
  ℕ, suc, ◌+◌, ◌-◌, ◌*◌, ◌/◌, ◌≡◌, refl, ap, subst, find-key, ◌∙◌, ◌≤◌, ◌<◌, false, none, some,
  List, [], ◌∷◌, find, find-append, find-update_id, length_of, leb, if◌then◌else◌, arith,
  Option-cases, inl, inr,
}
use tools_tele_t_ng.Models.Rows.{Key}
use tools_tele_t_ng.RateLimiter.State.{to_iso, to_epoch}
use tools_tele_t_ng.WebAuth.Security.{
  Security, Policy, security_client, retry_after, window_of, failure_row, upsert_security,
  record_failure,
}
use tools_tele_t_ng.WebAuth.Logins.{AuthTables, too_many, wrong, welcome, Attempt, is_right, login}

upsert_security-find :
    (s : Security) (rows : List Security)
    → find security_client s.client_key (upsert_security s rows) ≡ some s
upsert_security-find s rows = elim (Option-cases (find security_client s.client_key rows)) [
  | inl gone ↦ ground (arith, find-append security_client s.client_key rows s)
  | inr (r, here) ↦
      let same = find-key security_client s.client_key rows r here in
      rw (here, upsert_security)
        (find-update_id security_client s.client_key (λ r. record s { client_key = r.client_key })
            rows r (λ r. refl) here
          ∙ ap (λ k. some (record s { client_key = k })) same)
]

failure_row-client :
    (ms : ℕ) (client : Key) (p : Policy) (counted : ℕ × ℕ)
    → (failure_row ms client p counted).client_key ≡ client
failure_row-client ms client p (count, start) = ground arith

-- The row of a client after one more failure.
record_failure-find :
    (ms : ℕ) (client : Key) (p : Policy) (rows : List Security)
    → find security_client client (record_failure ms client p rows)
      ≡ some (failure_row ms client p (window_of ms p (find security_client client rows)))
unfolding record_failure
record_failure-find ms client p rows =
    let s = failure_row ms client p (window_of ms p (find security_client client rows)) in
    subst (λ k. find security_client k (upsert_security s rows) ≡ some s)
      (failure_row-client ms client p (window_of ms p (find security_client client rows)))
      (upsert_security-find s rows)

-- The client has failed so often in the window that has started then, and is not blocked.
record HasFailed (client : Key) (count start : ℕ) (rows : List Security) : Type 0 where
  row : Security
  stored : find security_client client rows ≡ some row
  counted : row.failure_count ≡ count
  started : row.window_started_at ≡ some start
  unblocked : row.blocked_until ≡ none

-- The client is blocked until then.
abbrev IsBlocked : Key → ℕ → List Security → Type 0
IsBlocked client end rows =
    (row : Security) × (find security_client client rows ≡ some row)
    × (row.blocked_until ≡ some end)

module _ (p : Policy) (max_age : ℕ) (hash client : Key) where
  -- The attempts, one after the other.
  abbrev pub try_all : List (ℕ × Attempt) → AuthTables → AuthTables
  try_all [] w = w
  try_all ((ms, a) ∷ rest) w = try_all rest (login ms p max_age hash client a w).1

  -- Each of them is let through to the check of the password, and fails there.
  abbrev pub AreWrong : List (ℕ × Attempt) → AuthTables → Type 0
  AreWrong [] w = Unit {0}
  AreWrong ((ms, a) ∷ rest) w =
      ((login ms p max_age hash client a w).0 ≡ wrong)
      × AreWrong rest (login ms p max_age hash client a w).1

  -- A wrong attempt of a client that is not blocked.
  wrong_login :
      (ms count start : ℕ) (a : Attempt) (w : AuthTables)
      → retry_after ms client w.security ≡ 0
      → window_of ms p (find security_client client w.security) ≡ (count, start)
      → is_right a ≡ false
      → let (reply, w') = login ms p max_age hash client a w in
        (reply ≡ wrong)
        × (find security_client client w'.security ≡ some (failure_row ms client p (count, start)))
  unfolding login
  wrong_login ms count start a w free counted bad =
      rw (free, login)
        (rw bad (
          refl,
          record_failure-find ms client p w.security
              ∙ ap (λ c. some (failure_row ms client p c)) counted,
        ))

-- Wrong attempts, none of them later than `end`.
abbrev pub AreBad : ℕ → List (ℕ × Attempt) → Type 0
AreBad end [] = Unit {0}
AreBad end ((ms, a) ∷ rest) = (ms ≤ end) × (is_right a ≡ false) × AreBad end rest

abbrev pub last_time : ℕ → List (ℕ × Attempt) → ℕ
last_time ms [] = ms
last_time ms ((next, a) ∷ rest) = last_time next rest

HasFailed-window_of :
    (ms count start : ℕ) (client : Key) (p : Policy) (rows : List Security)
    → HasFailed client count start rows
    → ms ≤ to_epoch start + p.window_seconds * 1000
    → (window_of ms p (find security_client client rows) ≡ (count, to_epoch start))
      × (retry_after ms client rows ≡ 0)
unfolding retry_after
HasFailed-window_of ms count start client p rows h soon =
    ground (arith, h.stored, h.counted, h.started, h.unblocked)

failure_row-HasFailed :
    (ms count start : ℕ) (client : Key) (p : Policy) (rows : List Security)
    → suc count < p.failure_limit
    → find security_client client rows ≡ some (failure_row ms client p (count, to_epoch start))
    → HasFailed client (suc count) start rows
failure_row-HasFailed ms count start client p rows few here = record {
  row = failure_row ms client p (count, to_epoch start);
  stored = here;
  counted = ground arith;
  started = ground arith;
  unblocked = ground arith;
}

failure_row-IsBlocked :
    (ms count start : ℕ) (client : Key) (p : Policy) (rows : List Security)
    → suc count ≡ p.failure_limit
    → find security_client client rows ≡ some (failure_row ms client p (count, start))
    → IsBlocked client (to_iso (ms + p.block_seconds * 1000)) rows
failure_row-IsBlocked ms count start client p rows many here =
    (failure_row ms client p (count, start), here, ground arith)

module _ (p : Policy) (max_age : ℕ) (hash client : Key) where
  -- From the first failure of the window to the one that reaches the limit.
  failures-IsBlocked :
      (ms count start : ℕ) (a : Attempt) (rest : List (ℕ × Attempt)) (w : AuthTables)
      → HasFailed client count start w.security
      → suc (count + length_of rest) ≡ p.failure_limit
      → AreBad (to_epoch start + p.window_seconds * 1000) ((ms, a) ∷ rest)
      → AreWrong p max_age hash client ((ms, a) ∷ rest) w
        × IsBlocked client
            (to_iso (last_time ms rest + p.block_seconds * 1000))
            (try_all p max_age hash client ((ms, a) ∷ rest) w).security
  failures-IsBlocked ms count start a [] w failed many bad =
      let (counted, free) = HasFailed-window_of ms count start client p w.security failed bad.0 in
      let (reply, stored) =
        wrong_login p max_age hash client ms count (to_epoch start) a w free counted bad.1 in
      (
        (reply, tt),
        failure_row-IsBlocked ms count (to_epoch start) client p _ (omega (arith, many)) stored,
      )
  failures-IsBlocked ms count start a ((next, b) ∷ rest) w failed many bad =
      let (counted, free) = HasFailed-window_of ms count start client p w.security failed bad.0 in
      let (reply, stored) =
        wrong_login p max_age hash client ms count (to_epoch start) a w free counted bad.1 in
      let w' = (login ms p max_age hash client a w).1 in
      let again =
        failure_row-HasFailed ms count start client p w'.security (omega (arith, many)) stored in
      let (replies, blocked) =
        failures-IsBlocked next (suc count) start b rest w' again (omega (arith, many)) bad.2 in
      ((reply, replies), blocked)

  -- The first failure of a window.
  first-IsBlocked :
      (ms : ℕ) (a : Attempt) (rest : List (ℕ × Attempt)) (w : AuthTables)
      → retry_after ms client w.security ≡ 0
      → window_of ms p (find security_client client w.security) ≡ (0, ms)
      → suc (length_of rest) ≡ p.failure_limit
      → is_right a ≡ false
      → AreBad (to_epoch (to_iso ms) + p.window_seconds * 1000) rest
      → AreWrong p max_age hash client ((ms, a) ∷ rest) w
        × IsBlocked client
            (to_iso (last_time ms rest + p.block_seconds * 1000))
            (try_all p max_age hash client ((ms, a) ∷ rest) w).security
  first-IsBlocked ms a [] w free fresh many wrong_one bad =
      let (reply, stored) = wrong_login p max_age hash client ms 0 ms a w free fresh wrong_one in
      ((reply, tt), failure_row-IsBlocked ms 0 ms client p _ (omega (arith, many)) stored)
  first-IsBlocked ms a ((next, b) ∷ rest) w free fresh many wrong_one bad =
      let (reply, stored) = wrong_login p max_age hash client ms 0 ms a w free fresh wrong_one in
      let w' = (login ms p max_age hash client a w).1 in
      let failed : HasFailed client 1 (to_iso ms) w'.security = record {
        row = failure_row ms client p (0, ms);
        stored = stored;
        counted = ground arith;
        started = ground arith;
        unblocked = ground arith;
      } in
      let (replies, blocked) =
        failures-IsBlocked next 1 (to_iso ms) b rest w' failed (omega (arith, many)) bad in
      ((reply, replies), blocked)

  blocked_login :
      (end t : ℕ) (a : Attempt) (w : AuthTables)
      → IsBlocked client end w.security
      → (login t p max_age hash client a w).0 ≡ (
          if leb (t + 1000) (to_epoch end)
          then too_many ((to_epoch end - t) / 1000)
          else if is_right a
          then welcome hash
          else wrong)
  unfolding login retry_after
  blocked_login end t a w (row, stored, blocked) = ground arith

  -- A client that reaches the limit of failures within a window is locked out. Let none of its
  -- earlier failures count any more, and let as many wrong attempts follow as the limit says, all
  -- within the window of the first: each of them is answered as wrong, and every later attempt that
  -- comes a second or more before the end of the block is refused, with the seconds that are left,
  -- though its password be right. From then on the password decides again.
  pub lockout :
      (ms : ℕ) (a : Attempt) (rest : List (ℕ × Attempt)) (w : AuthTables)
      → retry_after ms client w.security ≡ 0
      → window_of ms p (find security_client client w.security) ≡ (0, ms)
      → suc (length_of rest) ≡ p.failure_limit
      → is_right a ≡ false
      → AreBad (to_epoch (to_iso ms) + p.window_seconds * 1000) rest
      → let end = to_epoch (to_iso (last_time ms rest + p.block_seconds * 1000)) in
        let w' = try_all p max_age hash client ((ms, a) ∷ rest) w in
        AreWrong p max_age hash client ((ms, a) ∷ rest) w
        × ((t : ℕ) (b : Attempt)
            → (login t p max_age hash client b w').0 ≡ (
                if leb (t + 1000) end
                then too_many ((end - t) / 1000)
                else if is_right b
                then welcome hash
                else wrong))
  lockout ms a rest w free fresh many wrong_one bad =
      let (replies, blocked) = first-IsBlocked ms a rest w free fresh many wrong_one bad in
      let w' = try_all p max_age hash client ((ms, a) ∷ rest) w in
      (
        replies,
        λ t b. blocked_login (to_iso (last_time ms rest + p.block_seconds * 1000)) t b w' blocked,
      )
