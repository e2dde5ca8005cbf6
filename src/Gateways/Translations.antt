-- ===== src/Gateways/Translations.antt =====
-- The translators of both exchanges: which error codes stop the dealer.
use lapuacore.Common.{ℕ, ◌≡◌, Bool, false, ◌||◌, String, if◌then◌else◌, ◌==◌, nat_eq, arith}
use lapuacore.Deals.Errors.{error, is_info, is_warn, is_http_request}
use lapuacore.Deals.World.{World}
use lapuacore.Deals.Handlers.{notice_error, stop_accepting, notify}
use lapuacore.Gateways.Bybit
use lapuacore.Gateways.Coinex

-- The codes of CoinEx that leave the dealer accepting orders: a position that is closing, and four that
-- are worth no notice.
abbrev pub is_tolerated : ℕ → Bool
is_tolerated code = code == 3132 || code == 3129 || code == 3008 || code == 3007 || code == 227

module _ {D : Type 0} (err_msg : ℕ → String → String) (code : ℕ) (msg : String) (w : World D) where
  -- Of the error codes of CoinEx exactly the five tolerated ones leave the dealer accepting orders as
  -- before, and none of Bybit does: any other error that is noticed stops it.
  pub notice_error-accept_order :
      ((notice_error (Coinex.translate_error err_msg code msg) w).dealer.accept_order
        ≡ (if is_tolerated code then w.dealer.accept_order else false))
      × ((notice_error (Bybit.translate_error err_msg code msg) w).dealer.accept_order ≡ false)
  unfolding notice_error notify stop_accepting is_info is_warn is_http_request
      Coinex.translate_error Coinex.error_of_code Bybit.translate_error Bybit.error_of_code error
  notice_error-accept_order = ground arith
