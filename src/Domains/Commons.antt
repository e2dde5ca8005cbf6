-- ===== src/Domains/Commons.antt =====
-- domains/commons.go: sides and order types.
use lapuacore.Common.{Bool, true, false}

pub data Side : Type 0 where
  side_none side_buy side_sell : Side

unfoldable pub opposite : Side → Side
opposite side_buy = side_sell
opposite side_sell = side_buy
opposite side_none = side_none

pub data BookSide : Type 0 where
  book_side_none book_side_bid book_side_ask : BookSide

pub data OrderType : Type 0 where
  unknown_type market limit limit_fok limit_ioc limit_maker : OrderType

unfoldable pub is_taker : OrderType → Bool
is_taker market = true
is_taker limit_fok = true
is_taker limit_ioc = true
is_taker _ = false

unfoldable pub is_maker : OrderType → Bool
is_maker limit_maker = true
is_maker limit = true
is_maker _ = false

unfoldable pub is_amenable : OrderType → Bool
is_amenable limit_maker = true
is_amenable limit = true
is_amenable _ = false

unfoldable pub is_pricable : OrderType → Bool
is_pricable limit = true
is_pricable limit_fok = true
is_pricable limit_ioc = true
is_pricable limit_maker = true
is_pricable _ = false
