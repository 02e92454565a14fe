-- ===== src/Telegram/Classify.antt =====
-- `TelegramService.check_phone`. What the Telethon client does is an argument: the import of the
-- contact raises or returns, and the deletion of the contact returns or raises.
use Prim.Native.String.{◌++◌}
use text.Mathlib.Text.{◌==◌ as ◌≈◌}
use tools_tele_t_ng.Base.{
  ℕ, zero, suc, ◌/◌, ◌%◌, Bool, false, ◌||◌, Option, none, some, String, List, [], ◌∷◌, ltb, ◌==◌,
  if◌then◌else◌,
}
use tools_tele_t_ng.Models.Status.{CheckStatus, ErrorType, error_text}
use tools_tele_t_ng.Models.Rows.{CheckResponse}

-- `types.TypeUserStatus`; an offline user's time is the text that `strftime` makes of it.
pub data UserStatus : Type 0 where
  online recently last_week last_month other_status : UserStatus
  offline : String → UserStatus

pub record TelegramUser : Type 0 where
  pub id : Option ℕ
  pub username : Option String
  pub first_name : Option String
  pub last_name : Option String
  pub status : UserStatus

-- An entry of `retry_contacts`: the response is searched for a number and for a text.
pub data RetryContact : Type 0 where
  by_client_id : ℕ → RetryContact
  by_phone : String → RetryContact

pub record ImportResponse : Type 0 where
  pub users : List TelegramUser
  pub retry_contacts : List RetryContact

-- How `ImportContactsRequest` ends: an exception of one of the four handlers, with the text that
-- `str` makes of it, or a response.
pub data ImportAnswer : Type 0 where
  flood_wait : ℕ → ImportAnswer
  rpc_call_fail network_failure unexpected : String → ImportAnswer
  imported : ImportResponse → ImportAnswer

unfoldable pub get_human_readable_user_status : UserStatus → String
get_human_readable_user_status UserStatus.online = "Currently online"
get_human_readable_user_status (UserStatus.offline was_online) = was_online
get_human_readable_user_status UserStatus.recently = "Last seen recently"
get_human_readable_user_status UserStatus.last_week = "Last seen last week"
get_human_readable_user_status UserStatus.last_month = "Last seen last month"
get_human_readable_user_status UserStatus.other_status = "Unknown"

-- Python's `str` of a number; the fuel is one more than the number.
digit : ℕ → String
digit d =
    if d == 0
    then "0"
    else if d == 1
    then "1"
    else if d == 2
    then "2"
    else if d == 3
    then "3"
    else if d == 4
    then "4"
    else if d == 5
    then "5"
    else if d == 6
    then "6"
    else if d == 7
    then "7"
    else if d == 8
    then "8"
    else "9"

digits : ℕ → ℕ → String
unfolding digit
digits zero n = ""
digits (suc fuel) n =
    let front = digits fuel (n / 10) in if ltb n 10 then digit n else front ++ digit (n % 10)

unfoldable pub decimal : ℕ → String
unfolding digits
decimal n = digits (suc n) n

-- A `CheckResponse` of a status, with the fields that the dataclass leaves empty.
abbrev pub bare : CheckStatus → String → CheckResponse
bare status phone = record {
  status = status;
  phone = phone;
  telegram_user_id = none;
  username = none;
  first_name = none;
  last_name = none;
  user_was_online = none;
  retry_after_seconds = none;
  error_type = none;
  error_message = none;
  cleanup_error = none;
}

abbrev pub failed : CheckStatus → String → ErrorType → String → CheckResponse
failed status phone error message = record (bare status phone) {
  error_type = some (error_text error);
  error_message = some message;
}

-- `client_id in retry_ids or phone in retry_ids`
unfoldable pub asks_retry : ℕ → String → List RetryContact → Bool
asks_retry client_id phone [] = false
asks_retry client_id phone (by_client_id n ∷ rest) =
    (n == client_id) || asks_retry client_id phone rest
asks_retry client_id phone (by_phone p ∷ rest) = (p ≈ phone) || asks_retry client_id phone rest

-- `none`: the contact was deleted; else the text of the exception.
abbrev pub cleanup_note : Option String → Option String
cleanup_note none = none
cleanup_note (some e) = some ("DeleteContactsRequest failed: " ++ e)

abbrev pub found_response : String → TelegramUser → Option String → CheckResponse
found_response phone user cleanup = record (bare CheckStatus.found phone) {
  telegram_user_id = user.id;
  username = user.username;
  first_name = user.first_name;
  last_name = user.last_name;
  user_was_online = some (get_human_readable_user_status user.status);
  cleanup_error = cleanup_note cleanup;
}

-- By the users of the response, once the contact is not to be retried.
unfoldable pub by_users : String → List TelegramUser → Option String → CheckResponse
by_users phone [] cleanup = record (bare CheckStatus.not_discoverable phone) {
  error_message = some "No user returned and contact not in retry_contacts";
}
by_users phone (user ∷ []) cleanup = found_response phone user cleanup
by_users phone (user ∷ other ∷ rest) cleanup =
    failed CheckStatus.permanent_error phone ErrorType.unknown
      "Matched multiple Telegram accounts unexpectedly"

unfoldable pub classify_import_response :
    ImportResponse → String → ℕ → Option String → CheckResponse
unfolding by_users asks_retry
classify_import_response r phone client_id cleanup =
    if asks_retry client_id phone r.retry_contacts
    then failed CheckStatus.retry_required phone ErrorType.telegram_error
        "contact listed in retry_contacts"
    else by_users phone r.users cleanup

unfoldable pub do_check_phone : ImportAnswer → String → ℕ → Option String → CheckResponse
unfolding classify_import_response error_text decimal
do_check_phone (flood_wait seconds) phone client_id cleanup =
    record (failed CheckStatus.rate_limited phone ErrorType.flood_wait
      ("FloodWait for " ++ decimal seconds ++ "s")) { retry_after_seconds = some seconds }
do_check_phone (rpc_call_fail e) phone client_id cleanup =
    failed CheckStatus.temporary_error phone ErrorType.telegram_error
      ("Telegram RPC call failed: " ++ e)
do_check_phone (network_failure e) phone client_id cleanup =
    failed CheckStatus.temporary_error phone ErrorType.network_timeout e
do_check_phone (unexpected e) phone client_id cleanup =
    failed CheckStatus.temporary_error phone ErrorType.unknown e
do_check_phone (imported r) phone client_id cleanup =
    classify_import_response r phone client_id cleanup

-- `connected`: there is a client.
unfoldable pub check_phone : Bool → ImportAnswer → String → ℕ → Option String → CheckResponse
unfolding do_check_phone
check_phone connected answer phone client_id cleanup =
    if connected
    then do_check_phone answer phone client_id cleanup
    else failed CheckStatus.temporary_error phone ErrorType.unknown
        "Telegram client is not connected"
