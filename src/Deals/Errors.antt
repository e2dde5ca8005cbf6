-- ===== src/Deals/Errors.antt =====
-- domains/deals/errors.go, and `errors.Is` on these values.
use lapuacore.Common.{Bool, true, false, String}

-- The sentinels of both `var` blocks, an error made elsewhere, and a sentinel under a message.
pub data Err : Type 0 where
  server_timeout_error parameter_error price_setting_error auth_error exec_late_limit_error : Err
  late_limit_error insufficient_balance_error account_lock_error http_request_error : Err
  info_error warn_error other_error order_is_not_exists : Err
  order_is_already_exists order_not_ready_for_operation order_not_found order_is_not_amendable : Err
  foreign : String → Err
  wrapped : Err → String → Err

-- `Error(err, msg)`, that is `fmt.Errorf("%w: %v", err, errors.New(msg))`.
unfoldable pub error : Err → String → Err
error err msg = wrapped err msg

-- `errors.Is` against the four sentinels that the package compares with: it looks below each `%w`.
unfoldable pub is_info : Err → Bool
is_info info_error = true
is_info (wrapped e msg) = is_info e
is_info _ = false

unfoldable pub is_warn : Err → Bool
is_warn warn_error = true
is_warn (wrapped e msg) = is_warn e
is_warn _ = false

unfoldable pub is_http_request : Err → Bool
is_http_request http_request_error = true
is_http_request (wrapped e msg) = is_http_request e
is_http_request _ = false

unfoldable pub is_order_is_not_exists : Err → Bool
is_order_is_not_exists order_is_not_exists = true
is_order_is_not_exists (wrapped e msg) = is_order_is_not_exists e
is_order_is_not_exists _ = false
