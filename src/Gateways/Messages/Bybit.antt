-- ===== src/Gateways/Messages/Bybit.antt =====
-- internal/gateways/exchanges/bybit/translators/ and the messages of dtos/: the messages of Bybit.
use lapuacore.Common.{
  ℕ, Option, some, List, [], ◌∷◌, String, ◌==◌, string_eq, nat_eq, if◌then◌else◌,
}
use lapuacore.Domains.Decimal.{Decimal}
use lapuacore.Deals.Messages.{
  OrderData, PositionMode, PositionData, unknown_mode, one_way, hedge_of_buy_side,
  hedge_of_sell_side,
}
use lapuacore.Insights.Quote.{PriceLevel, QuoteData}
use lapuacore.Insights.Trade.{TradeData}
use lapuacore.Insights.Book.{DataType, OrderBookData, unknown_type, snapshot, delta}
use lapuacore.Gateways.Bybit.{translate_side, translate_status}
use lapuacore.Gateways.Messages.{
  Text, Translated, translated, failed, ◌>>=◌, or_fail, translate_records,
}

pub record OrderDataDto : Type 0 where
  pub order_link_id : String
  pub order_id : String
  pub side : String
  pub price : String
  pub qty : String
  pub fee : String
  pub avg_price : String
  pub cum_exec_qty : String
  pub updated_time_ms : String
  pub order_status : String

-- `msg_type` is `Type`.
pub record OrderBookMsgDto : Type 0 where
  pub msg_type : String
  pub ts : ℕ
  pub bids : List (List String)
  pub asks : List (List String)
  pub update_id : ℕ

pub record TradeDataDto : Type 0 where
  pub timestamp : ℕ
  pub side : String
  pub volume : String
  pub price : String

pub record PositionDataDto : Type 0 where
  pub position_idx : ℕ
  pub side : String
  pub qty : String
  pub updated_time_ms : String

pub data MessageType : Type 0 where
  message_type_unknown message_type_snapshot message_type_delta : MessageType

unfoldable pub to_message_type : String → MessageType
to_message_type str =
    if str == "snapshot"
    then message_type_snapshot
    else if str == "delta"
    then message_type_delta
    else message_type_unknown

unfoldable pub translate_message_type : MessageType → DataType
translate_message_type message_type_snapshot = snapshot
translate_message_type message_type_delta = delta
translate_message_type message_type_unknown = unknown_type

unfoldable pub translate_position_mode : ℕ → PositionMode
translate_position_mode mode =
    if mode == 0
    then one_way
    else if mode == 1
    then hedge_of_buy_side
    else if mode == 2
    then hedge_of_sell_side
    else unknown_mode

module _ {D : Type 0} ⦃d : Decimal D⦄ (t : Text D) where
  -- An average price that is empty is zero.
  abbrev pub avg_price_of : String → Translated D
  avg_price_of s = if s == "" then translated d.zero_dec else or_fail (t.parse_decimal s)

  unfoldable pub translate_order_data : Option ℕ → OrderDataDto → Translated (OrderData D)
  unfolding translate_side translate_status
  translate_order_data confirmed_at data' = do
    arrived_at ← or_fail (t.parse_int data'.updated_time_ms)
    price ← or_fail (t.parse_decimal data'.price)
    qty ← or_fail (t.parse_decimal data'.qty)
    fee ← or_fail (t.parse_decimal data'.fee)
    avg_price ← avg_price_of data'.avg_price
    cum_exec_qty ← or_fail (t.parse_decimal data'.cum_exec_qty)
    translated (record {
      id = data'.order_link_id;
      public_id = data'.order_id;
      side = translate_side data'.side;
      price = price;
      qty = qty;
      avg_exec_price = avg_price;
      cum_fee = fee;
      cum_exec_qty = cum_exec_qty;
      status = translate_status data'.order_status;
      arrived_at = some arrived_at;
      confirmed_at = confirmed_at;
    })

  unfoldable pub translate_order_book : ℕ → OrderBookMsgDto → Translated (OrderBookData D)
  unfolding translate_records to_message_type translate_message_type
  translate_order_book arrived_at msg = do
    asks ← translate_records t msg.update_id msg.asks
    bids ← translate_records t msg.update_id msg.bids
    translated (record {
      data_type = translate_message_type (to_message_type msg.msg_type);
      exec_at = msg.ts;
      arrived_at = arrived_at;
      bids = bids;
      asks = asks;
      seq_id = msg.update_id;
    })

  unfoldable pub translate_trade : ℕ → TradeDataDto → Translated (TradeData D)
  unfolding translate_side
  translate_trade timestamp msg = do
    volume ← or_fail (t.parse_decimal msg.volume)
    price ← or_fail (t.parse_decimal msg.price)
    translated (record {
      exec_at = msg.timestamp;
      arrived_at = timestamp;
      side = translate_side msg.side;
      volume = volume;
      price = price;
    })

  unfoldable pub translate_trades : ℕ → List TradeDataDto → Translated (List (TradeData D))
  unfolding translate_trade
  translate_trades timestamp [] = translated []
  translate_trades timestamp (m ∷ l) = do
    trade ← translate_trade timestamp m
    rest ← translate_trades timestamp l
    translated (trade ∷ rest)

  unfoldable pub translate_position : PositionDataDto → Translated (PositionData D)
  unfolding translate_position_mode translate_side
  translate_position msg = do
    qty ← or_fail (t.parse_decimal msg.qty)
    updated_at ← or_fail (t.parse_int msg.updated_time_ms)
    translated (record {
      timestamp = updated_at;
      position_mode = translate_position_mode msg.position_idx;
      side = translate_side msg.side;
      qty = qty;
    })

-- `BookTickerAdapter.Convert`: the first levels of both sides.
module _ {D : Type 0} where
  abbrev pub quote_of :
      List (PriceLevel D) → List (PriceLevel D) → OrderBookData D → Translated (QuoteData D)
  quote_of (ask ∷ asks) (bid ∷ bids) ob = translated (record {
    seq_id = ob.seq_id;
    exec_at = ob.exec_at;
    event_at = ob.exec_at;
    arrived_at = ob.arrived_at;
    best_ask = some ask;
    best_bid = some bid;
  })
  quote_of _ _ ob = failed

  unfoldable pub convert_to_quote : OrderBookData D → Translated (QuoteData D)
  convert_to_quote ob = quote_of ob.asks ob.bids ob
