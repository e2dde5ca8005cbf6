-- ===== src/Deals/Order/New.antt =====
-- domains/deals/order.go: the constructors of orders, and signed sizes. The ID, which the
-- third-party xid generator makes, is an argument.
use lapuacore.Common.{Bool, false, none, [], String, if◌then◌else◌}
use lapuacore.Domains.Decimal.{Decimal}
use lapuacore.Domains.Commons.{
  Side, side_none, side_buy, side_sell, OrderType, market, limit, limit_fok, limit_ioc, limit_maker,
}
use lapuacore.Deals.Order.{Order, born}

module _ {D : Type 0} ⦃d : Decimal D⦄ where
  unfoldable pub to_size : Side → D → D
  to_size side_buy qty = qty
  to_size side_sell qty = d.neg qty
  to_size side_none qty = d.zero_dec

  unfoldable pub get_size : Order D → D
  unfolding to_size
  get_size o = to_size o.side o.qty

  unfoldable pub side_of_size : D → Side
  side_of_size size =
      if d.is_negative size then side_sell else if d.is_positive size then side_buy else side_none

  unfoldable pub to_qty : D → D × Side
  unfolding side_of_size
  to_qty size = (d.abs size, side_of_size size)

  -- The fields that every constructor sets; all others are zero values.
  unfoldable pub new_order : String → OrderType → D → D → Side → Bool → String → Order D
  new_order id order_type price qty side hide memo = record {
    id = id;
    public_id = "";
    hide = hide;
    memo = memo;
    order_type = order_type;
    price = price;
    qty = qty;
    side = side;
    sent_at = none;
    arrived_at = none;
    confirmed_at = none;
    last_operated_at = none;
    status = born;
    filled_at = none;
    avg_price = d.zero_dec;
    exec_qty = d.zero_dec;
    fee = d.zero_dec;
    order_done_reason = none;
    create_callbacks = [];
    amend_callbacks = [];
    fill_callbacks = [];
    partially_fill_callbacks = [];
    cancel_callbacks = [];
    create_reject_callbacks = [];
    amend_reject_callbacks = [];
    amend_reject_order_not_exist_callbacks = [];
    cancel_reject_callbacks = [];
    amending_detail = none;
    amend_count = 0;
  }

  unfoldable pub new_limit_order : String → D → D → Side → Bool → String → Order D
  unfolding new_order
  new_limit_order id price qty side hide memo = new_order id limit price qty side hide memo

  unfoldable pub new_limit_order_by_size : String → D → D → Bool → String → Order D
  unfolding new_limit_order to_qty
  new_limit_order_by_size id price size hide memo =
      let (qty, side) = to_qty size in new_limit_order id price qty side hide memo

  unfoldable pub new_limit_fok_order : String → D → D → Side → String → Order D
  unfolding new_order
  new_limit_fok_order id price qty side memo = new_order id limit_fok price qty side false memo

  unfoldable pub new_limit_fok_order_by_size : String → D → D → String → Order D
  unfolding new_limit_fok_order to_qty
  new_limit_fok_order_by_size id price size memo =
      let (qty, side) = to_qty size in new_limit_fok_order id price qty side memo

  unfoldable pub adjusted_price : Side → D → D → D
  adjusted_price side_sell price slippage = d.sub price slippage
  adjusted_price side_buy price slippage = d.add price slippage
  adjusted_price side_none price slippage = price

  unfoldable pub new_limit_ioc_order : String → D → D → D → Side → String → Order D
  unfolding new_order adjusted_price
  new_limit_ioc_order id price slippage qty side memo =
      new_order id limit_ioc (adjusted_price side price slippage) qty side false memo

  unfoldable pub new_limit_ioc_order_by_size : String → D → D → D → String → Order D
  unfolding new_limit_ioc_order to_qty
  new_limit_ioc_order_by_size id price slippage size memo =
      let (qty, side) = to_qty size in new_limit_ioc_order id price slippage qty side memo

  unfoldable pub new_limit_maker_order : String → D → D → Side → Bool → String → Order D
  unfolding new_order
  new_limit_maker_order id price qty side hide memo =
      new_order id limit_maker price qty side hide memo

  unfoldable pub new_limit_maker_order_by_size : String → D → D → Bool → String → Order D
  unfolding new_limit_maker_order to_qty
  new_limit_maker_order_by_size id price size hide memo =
      let (qty, side) = to_qty size in new_limit_maker_order id price qty side hide memo

  unfoldable pub new_market_order : String → D → Side → String → Order D
  unfolding new_order
  new_market_order id qty side memo = new_order id market d.zero_dec qty side false memo

  unfoldable pub new_market_order_by_size : String → D → String → Order D
  unfolding new_market_order to_qty
  new_market_order_by_size id size memo =
      let (qty, side) = to_qty size in new_market_order id qty side memo
