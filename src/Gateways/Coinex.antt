-- ===== src/Gateways/Coinex.antt =====
-- internal/gateways/exchanges/coinex/translators/: the words and the error codes of CoinEx. `err_msg`
-- stands for the text that `fmt.Sprintf` makes. A code is a natural number; a negative one would be
-- none of the cases.
use lapuacore.Common.{ℕ, ◌||◌, String, if◌then◌else◌, ◌==◌, string_eq, nat_eq}
use lapuacore.Domains.Commons.{
  Side, side_none, side_buy, side_sell, OrderType, market, limit, limit_ioc, limit_fok, limit_maker,
  unknown_type,
}
use lapuacore.Deals.Errors.{
  Err, error, auth_error, insufficient_balance_error, order_is_not_exists, warn_error, info_error,
  exec_late_limit_error, other_error,
}

unfoldable pub translate_side : String → Side
translate_side msg =
    if msg == "buy" then side_buy else if msg == "sell" then side_sell else side_none

unfoldable pub translate_from_long_short : String → Side
translate_from_long_short msg =
    if msg == "long" then side_buy else if msg == "short" then side_sell else side_none

unfoldable pub translate_side_to_dto : Side → String
translate_side_to_dto side_buy = "buy"
translate_side_to_dto side_sell = "sell"
translate_side_to_dto side_none = "none"

unfoldable pub translate_order_type_to_dto : OrderType → String
translate_order_type_to_dto market = "market"
translate_order_type_to_dto limit = "limit"
translate_order_type_to_dto limit_ioc = "ioc"
translate_order_type_to_dto limit_fok = "fok"
translate_order_type_to_dto limit_maker = "maker_only"
translate_order_type_to_dto unknown_type = ""

-- The sentinel that goes with a code.
unfoldable pub error_of_code : ℕ → Err
error_of_code code =
    if code == 4008 || code == 4010 || code == 4017 || code == 4512
    then auth_error
    else if code == 3109
    then insufficient_balance_error
    else if code == 3103
    then order_is_not_exists
    else if code == 3132
    then warn_error
    else if code == 3129 || code == 3008 || code == 3007 || code == 227
    then info_error
    else if code == 4123 || code == 4213
    then exec_late_limit_error
    else other_error

unfoldable pub translate_error : (ℕ → String → String) → ℕ → String → Err
unfolding error_of_code error
translate_error err_msg code msg = error (error_of_code code) (err_msg code msg)
