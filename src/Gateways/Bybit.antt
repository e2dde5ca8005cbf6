-- ===== src/Gateways/Bybit.antt =====
-- internal/gateways/exchanges/bybit/translators/: the words and the error codes of Bybit. `err_msg`
-- stands for the text that `fmt.Sprintf` makes. A code is a natural number; a negative one would be
-- none of the cases.
use lapuacore.Common.{ℕ, ◌||◌, String, if◌then◌else◌, ◌==◌, string_eq, nat_eq}
use lapuacore.Domains.Commons.{Side, side_none, side_buy, side_sell}
use lapuacore.Deals.Errors.{
  Err, error, server_timeout_error, parameter_error, auth_error, exec_late_limit_error,
  order_is_not_exists, other_error,
}
use lapuacore.Deals.Messages.{
  OrderDataStatus, unknown_data, opened, rejected, partially_filled, filled, canceled,
}

unfoldable pub translate_side : String → Side
translate_side msg =
    if msg == "Buy" then side_buy else if msg == "Sell" then side_sell else side_none

unfoldable pub translate_side_to_dto : Side → String
translate_side_to_dto side_buy = "Buy"
translate_side_to_dto side_sell = "Sell"
translate_side_to_dto side_none = "None"

unfoldable pub translate_status : String → OrderDataStatus
translate_status status =
    if status == "New"
    then opened
    else if status == "Rejected"
    then rejected
    else if status == "PartiallyFilled"
    then partially_filled
    else if status == "Filled"
    then filled
    else if status == "Cancelled"
    then canceled
    else unknown_data

-- The sentinel that goes with a code.
unfoldable pub error_of_code : ℕ → Err
error_of_code code =
    if code == 10000
    then server_timeout_error
    else if code == 10001
    then parameter_error
    else if code == 10003 || code == 10004 || code == 10005 || code == 10007
    then auth_error
    else if code == 10006
    then exec_late_limit_error
    else if code == 110001
    then order_is_not_exists
    else other_error

unfoldable pub translate_error : (ℕ → String → String) → ℕ → String → Err
unfolding error_of_code error
translate_error err_msg code msg = error (error_of_code code) (err_msg code msg)
