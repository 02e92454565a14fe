-- ===== src/Tests/QrLogins.antt =====
-- QR logins, with the small phone number library.
use tools_tele_t_ng.Base.{◌≡◌, true, none, some, List, [], ◌∷◌, find, arith}
use tools_tele_t_ng.Models.Clock.{Moment}
use tools_tele_t_ng.Models.Rows.{Key}
use tools_tele_t_ng.Accounts.Qr.{
  QrEntry, QrWeb, entry_id, is_completed, password_needed, timed_out, scanned, closed,
  closing_raises,
}
use tools_tele_t_ng.Accounts.QrEntries.{AreHonest}
use tools_tele_t_ng.Accounts.QrStates
use tools_tele_t_ng.Accounts.QrStates.{QrCall, NoneCancels, run_qr_calls, run_qr_calls-AreHonest}
use tools_tele_t_ng.Tests.Accounts.{env, web, found_session}
use tools_tele_t_ng.Tests.Imports.{one_number}

abbrev no_logins : QrWeb
no_logins = record { web = web; pending = [] }

-- A login asks for the password and is completed, then refreshed, another runs out of time, and the client
-- of a third cannot be disconnected.
abbrev qr_calls : List (Moment × QrCall)
qr_calls =
    (10, QrStates.starts 41 true)
    ∷ (20, QrStates.ends 41 "failed" password_needed)
    ∷ (30, QrStates.submits 41 true 3 found_session closed)
    ∷ (40, QrStates.refreshes 41 true)
    ∷ (50, QrStates.starts 42 true)
    ∷ (60, QrStates.ends 42 "failed" timed_out)
    ∷ (70, QrStates.starts 43 true)
    ∷ (80, QrStates.ends 43 "failed" (scanned 4 found_session closing_raises))
    ∷ []

run_qr_calls-AreHonest_example :
    let q = run_qr_calls one_number none env qr_calls no_logins in
    AreHonest q.pending
    × ((k : Key) (e : QrEntry)
        → find entry_id k no_logins.pending ≡ some e
        → is_completed e.state ≡ true
        → NoneCancels k qr_calls
        → find entry_id k q.pending ≡ some e)
run_qr_calls-AreHonest_example =
    run_qr_calls-AreHonest one_number none env qr_calls no_logins (λ k e h. absurd (ground arith))
