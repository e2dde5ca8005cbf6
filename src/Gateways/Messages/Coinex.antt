-- ===== src/Gateways/Messages/Coinex.antt =====
-- internal/gateways/exchanges/coinex/translators/ and the messages of dtos/: the messages of CoinEx.
use lapuacore.Common.{ℕ, Bool, Option, some, List, [], ◌∷◌, String, ◌==◌, string_eq, if◌then◌else◌}
use lapuacore.Domains.Decimal.{Decimal}
use lapuacore.Deals.Messages.{
  OrderData, OrderDataStatus, unknown_data, opened, partially_filled, filled, canceled,
  PositionData, one_way,
}
use lapuacore.Insights.Quote.{QuoteData}
use lapuacore.Insights.Trade.{TradeData}
use lapuacore.Insights.Book.{OrderBookData, snapshot, delta}
use lapuacore.Gateways.Coinex.{translate_side, translate_from_long_short}
use lapuacore.Gateways.Messages.{
  Text, Translated, translated, ◌>>=◌, or_fail, translate_record, translate_records,
}

-- The fields of `OrderDataDto` and of its `Order` that are read.
pub record OrderDataDto : Type 0 where
  pub event : String
  pub order_id : ℕ
  pub side : String
  pub amount : String
  pub price : String
  pub unfilled_amount : String
  pub filled_amount : String
  pub fee : String
  pub client_id : String
  pub last_filled_amount : String
  pub last_filled_price : String
  pub updated_at : ℕ

-- `Data` of the message, with `Depth`.
pub record OrderBookMsgDto : Type 0 where
  pub is_snapshot : Bool
  pub updated_at : ℕ
  pub bids : List (List String)
  pub asks : List (List String)

pub record TradeDataDto : Type 0 where
  pub transaction_time : ℕ
  pub side : String
  pub price : String
  pub volume : String

pub record PositionDataDto : Type 0 where
  pub side : String
  pub open_interest : String
  pub updated_at : ℕ

pub record BookTickerMsgDto : Type 0 where
  pub ts : ℕ
  pub bid_price : String
  pub bid_size : String
  pub ask_price : String
  pub ask_size : String

module _ {D : Type 0} ⦃d : Decimal D⦄ where
  unfoldable pub translate_event : String → D → D → OrderDataStatus
  translate_event event filled_qty unfilled_qty =
      if event == "put"
      then (if d.is_zero filled_qty then opened else partially_filled)
      else if event == "update"
      then partially_filled
      else if event == "modify"
      then opened
      else if event == "finish"
      then (if d.is_zero unfilled_qty then filled else canceled)
      else unknown_data

module _ {D : Type 0} ⦃d : Decimal D⦄ (t : Text D) where
  unfoldable pub translate_order_data : Option ℕ → OrderDataDto → Translated (OrderData D)
  unfolding translate_side translate_event
  translate_order_data confirmed_at data' = do
    price ← or_fail (t.parse_decimal data'.price)
    qty ← or_fail (t.parse_decimal data'.amount)
    fee ← or_fail (t.parse_decimal data'.fee)
    cum_exec_qty ← or_fail (t.parse_decimal data'.last_filled_amount)
    avg_price ← or_fail (t.parse_decimal data'.last_filled_price)
    filled_qty ← or_fail (t.parse_decimal data'.filled_amount)
    unfilled_qty ← or_fail (t.parse_decimal data'.unfilled_amount)
    translated (record {
      id = data'.client_id;
      public_id = t.format_int data'.order_id;
      side = translate_side data'.side;
      price = price;
      qty = qty;
      avg_exec_price = avg_price;
      cum_fee = fee;
      cum_exec_qty = cum_exec_qty;
      status = translate_event data'.event filled_qty unfilled_qty;
      arrived_at = some data'.updated_at;
      confirmed_at = confirmed_at;
    })

  unfoldable pub translate_order_book : ℕ → OrderBookMsgDto → Translated (OrderBookData D)
  unfolding translate_records
  translate_order_book arrived_at msg = do
    asks ← translate_records t msg.updated_at msg.asks
    bids ← translate_records t msg.updated_at msg.bids
    translated (record {
      data_type = if msg.is_snapshot then snapshot else delta;
      exec_at = msg.updated_at;
      arrived_at = arrived_at;
      bids = bids;
      asks = asks;
      seq_id = msg.updated_at;
    })

  unfoldable pub translate_book_ticker : ℕ → BookTickerMsgDto → Translated (QuoteData D)
  unfolding translate_record
  translate_book_ticker arrived_at msg = do
    ask ← translate_record t msg.ts msg.ask_price msg.ask_size
    bid ← translate_record t msg.ts msg.bid_price msg.bid_size
    translated (record {
      seq_id = msg.ts;
      exec_at = msg.ts;
      event_at = msg.ts;
      arrived_at = arrived_at;
      best_ask = some ask;
      best_bid = some bid;
    })

  unfoldable pub translate_trade : ℕ → TradeDataDto → Translated (TradeData D)
  unfolding translate_side
  translate_trade timestamp msg = do
    volume ← or_fail (t.parse_decimal msg.volume)
    price ← or_fail (t.parse_decimal msg.price)
    translated (record {
      exec_at = msg.transaction_time;
      arrived_at = timestamp;
      side = translate_side msg.side;
      volume = volume;
      price = price;
    })

  unfoldable pub translate_trades : ℕ → List TradeDataDto → Translated (List (TradeData D))
  unfolding translate_trade
  translate_trades timestamp [] = translated []
  translate_trades timestamp (m ∷ l) = do
    trade ← translate_trade timestamp m
    rest ← translate_trades timestamp l
    translated (trade ∷ rest)

  unfoldable pub translate_position : PositionDataDto → Translated (PositionData D)
  unfolding translate_from_long_short
  translate_position msg = do
    qty ← or_fail (t.parse_decimal msg.open_interest)
    translated (record {
      timestamp = msg.updated_at;
      position_mode = one_way;
      side = translate_from_long_short msg.side;
      qty = qty;
    })
