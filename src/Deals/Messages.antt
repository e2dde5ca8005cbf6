-- ===== src/Deals/Messages.antt =====
-- The messages of domains/deals/order_resps.go, order_data.go and position_data.go.
use lapuacore.Common.{Bool, true, false, Option, String, ◌==◌, string_eq, ℕ}
use lapuacore.Domains.Commons.{Side}
use lapuacore.Deals.Errors.{Err}
use lapuacore.Deals.Order.{
  AmendDetail, OrderDoneReason, filled_reason, canceled_reason, rejected_reason, unknown_reason,
}

pub record CreateOrderResp : Type 0 where
  pub order_id : String
  pub public_id : String
  pub arrived_at : Option ℕ
  pub confirmed_at : Option ℕ
  pub err : Option Err

-- `detail` is read only where `err` is nil, and the agents set it there.
pub record AmendOrderResp (D : Type 0) : Type 0 where
  pub order_id : String
  pub detail : AmendDetail D
  pub arrived_at : Option ℕ
  pub confirmed_at : Option ℕ
  pub err : Option Err

pub record CancelOrderResp : Type 0 where
  pub order_id : String
  pub err : Option Err

pub data OrderDataStatus : Type 0 where
  unknown_data opened canceled filled partially_filled rejected : OrderDataStatus

pub record OrderData (D : Type 0) : Type 0 where
  pub id : String
  pub public_id : String
  pub side : Side
  pub price : D
  pub qty : D
  pub avg_exec_price : D
  pub cum_fee : D
  pub cum_exec_qty : D
  pub status : OrderDataStatus
  pub arrived_at : Option ℕ
  pub confirmed_at : Option ℕ

unfoldable pub is_done_status : OrderDataStatus → Bool
is_done_status filled = true
is_done_status canceled = true
is_done_status rejected = true
is_done_status _ = false

unfoldable pub done_reason : OrderDataStatus → OrderDoneReason
done_reason filled = filled_reason
done_reason canceled = canceled_reason
done_reason rejected = rejected_reason
done_reason _ = unknown_reason

-- `data.isUnrelated()`.
unfoldable pub is_unrelated : {D : Type 0} → OrderData D → Bool
is_unrelated data' = data'.id == ""

pub data PositionMode : Type 0 where
  unknown_mode one_way hedge_of_buy_side hedge_of_sell_side : PositionMode

pub record PositionData (D : Type 0) : Type 0 where
  pub timestamp : ℕ
  pub position_mode : PositionMode
  pub side : Side
  pub qty : D
