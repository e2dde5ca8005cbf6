-- ===== src/Gateways/Author/Examples.antt =====
-- What the theorem on authors says at concrete values.
use lapuacore.Common.{Bool, true, false, Option, none, some, List, [], ◌∷◌, ◌≡◌, refl, arith}
use lapuacore.Gateways.Author.{
  AuthResponse, AuthEvent, auth_message, auth_canceled, author_step, start_author, run_author,
  new_author, send_auth_request, send_auth_result, handle_auth_message, cancel_author,
  coinex_check_response, bybit_check_auth_response,
}
use lapuacore.Gateways.Author.Retries.{refusals, Ends, start_author-Ends}

-- An answer by its success, none for a message that is not read.
abbrev check : Option Bool → Option AuthResponse
check none = none
check (some s) = some (record { is_auth_resp = true; success = s; err_detail = "" })

abbrev events : List (AuthEvent (Option Bool))
events =
    auth_message (some false)
    ∷ auth_message (some true)
    ∷ auth_message none
    ∷ auth_message (some false)
    ∷ []

start_author-Ends_example : Ends (λ k. true) check events (start_author (λ k. true) 1) 2
unfolding refusals
start_author-Ends_example = start_author-Ends (λ k. true) check 1 events (omega arith)

-- After the end an answer panics.
late :
    run_author
      (λ k. true)
      check
      (auth_canceled ∷ auth_message (some true) ∷ [])
      (start_author (λ k. true) 1)
    ≡ none
unfolding run_author author_step start_author new_author send_auth_request send_auth_result
    handle_auth_message cancel_author
late = refl

-- An answer of CoinEx with another ID is not for the author, a Bybit message that is no JSON an error.
other_id :
    (coinex_check_response (λ c m. m) 7 (some (record { id = 8; code = 5; message = "" }))
      ≡ some (record { is_auth_resp = false; success = false; err_detail = "" }))
    × (bybit_check_auth_response none ≡ none)
unfolding coinex_check_response bybit_check_auth_response
other_id = (refl, refl)
