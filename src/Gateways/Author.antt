-- ===== src/Gateways/Author.antt =====
-- internal/gateways/author.go: the author of a private channel. What `sendRequest` and `checkResponse`
-- do is an argument: whether the request of a number is written, and what a message is. `numOfRetry` is
-- not negative, the sleep before a retry is left out.
pub mod Retries
pub mod Examples
use lapuacore.Common.{
  ℕ, ◌+◌, Bool, true, false, not, ◌&&◌, Option, none, some, String, List, [], ◌∷◌, leb,
  if◌then◌else◌, ◌==◌, nat_eq, string_eq,
}

pub data AuthErr : Type 0 where
  failed_to_send_auth_request retry_limit_reached : AuthErr

-- Where `Start` is: in its loop, or at its end, with the error it sends to `authErrChan`. At the end
-- both channels are closed.
pub data AuthLoop : Type 0 where
  waiting : AuthLoop
  returned : Option AuthErr → AuthLoop

-- `requests` counts the calls of `sendRequest`.
pub record Author : Type 0 where
  pub num_of_retry : ℕ
  pub retry_count : ℕ
  pub requests : ℕ
  pub at : AuthLoop

pub record AuthResult : Type 0 where
  pub success : Bool
  pub err_detail : String

-- What `checkResponse` gives where it gives no error.
pub record AuthResponse : Type 0 where
  pub is_auth_resp : Bool
  pub success : Bool
  pub err_detail : String

-- The decoded message of Bybit and `bybitCheckAuthResponse`, where no message is one that is not JSON.
pub record BybitAuthMsg : Type 0 where
  pub op : String
  pub success : Bool
  pub ret_msg : String

unfoldable pub bybit_check_auth_response : Option BybitAuthMsg → Option AuthResponse
bybit_check_auth_response none = none
bybit_check_auth_response (some msg) = some (
    if not (msg.op == "auth")
    then record { is_auth_resp = false; success = false; err_detail = "" }
    else if msg.success
    then record { is_auth_resp = true; success = true; err_detail = "" }
    else record { is_auth_resp = true; success = false; err_detail = msg.ret_msg })

pub record CoinexAuthMsg : Type 0 where
  pub id : ℕ
  pub code : ℕ
  pub message : String

-- `checkResponse` of an author of CoinEx, with the ID of its requests; `sprintf` prints the detail.
unfoldable pub coinex_check_response :
    (ℕ → String → String) → ℕ → Option CoinexAuthMsg → Option AuthResponse
coinex_check_response sprintf msg_id none =
    some (record { is_auth_resp = false; success = false; err_detail = "" })
coinex_check_response sprintf msg_id (some msg) = some (
    if not (msg.id == msg_id)
    then record { is_auth_resp = false; success = false; err_detail = "" }
    else if msg.code == 0
    then record { is_auth_resp = true; success = true; err_detail = "" }
    else record { is_auth_resp = true; success = false; err_detail = sprintf msg.code msg.message })

unfoldable pub new_author : ℕ → Author
new_author n = record { num_of_retry = n; retry_count = 0; requests = 0; at = waiting }

-- A call of `sendRequest`, and the return where it fails.
unfoldable pub send_auth_request : (ℕ → Bool) → Author → Author
send_auth_request writes a = record a {
  requests = a.requests + 1;
  at = if writes a.requests then waiting else returned (some failed_to_send_auth_request);
}

-- The case of a result in the loop.
unfoldable pub take_auth_result : (ℕ → Bool) → AuthResult → Author → Author
unfolding send_auth_request
take_auth_result writes r a =
    if r.success
    then a
    else if leb a.num_of_retry a.retry_count
    then record a { at = returned (some retry_limit_reached) }
    else send_auth_request writes (record a { retry_count = a.retry_count + 1 })

-- The send to `authResultChan`, which panics where the channel is closed.
unfoldable pub send_auth_result : (ℕ → Bool) → AuthResult → (l : AuthLoop) → Author → Option Author
unfolding take_auth_result
send_auth_result writes r waiting a = some (take_auth_result writes r a)
send_auth_result writes r (returned e) a = none

-- `HandleAuthMessage` for what `checkResponse` gives, none for an error, which the receiver reports.
unfoldable pub handle_auth_message : (ℕ → Bool) → Option AuthResponse → Author → Option Author
unfolding send_auth_result
handle_auth_message writes none a = some a
handle_auth_message writes (some r) a =
    if not r.is_auth_resp
    then some a
    else send_auth_result writes (record { success = r.success; err_detail = r.err_detail }) a.at a

-- What happens to a running author: a message, or the end of its context.
pub data AuthEvent {ℓ} (A : Type ℓ) : Type ℓ where
  auth_message : A → AuthEvent A
  auth_canceled : AuthEvent A

unfoldable pub cancel_author : AuthLoop → Author → Author
cancel_author waiting a = record a { at = returned none }
cancel_author (returned e) a = a

unfoldable pub author_step {ℓ} :
    {A : Type ℓ} → (ℕ → Bool) → (A → Option AuthResponse) → AuthEvent A → Author → Option Author
unfolding handle_auth_message cancel_author
author_step writes check (auth_message m) a = handle_auth_message writes (check m) a
author_step writes check auth_canceled a = some (cancel_author a.at a)

-- `Start` up to its loop.
unfoldable pub start_author : (ℕ → Bool) → ℕ → Author
unfolding new_author send_auth_request
start_author writes n = send_auth_request writes (new_author n)

-- The author through a list of events, none where one of them panics.
unfoldable pub run_author {ℓ} :
    {A : Type ℓ}
    → (ℕ → Bool)
    → (A → Option AuthResponse)
    → List (AuthEvent A)
    → Author
    → Option Author
unfolding author_step
run_author writes check [] a = some a
run_author writes check (e ∷ events) a = elim (author_step writes check e a) [
  | none ↦ none
  | some a' ↦ run_author writes check events a'
]
