-- ===== src/Gateways/Topics/Examples.antt =====
-- What the theorem on fills says at concrete messages of both exchanges.
use lapuacore.Common.{ℕ, ◌≡◌, refl, some, [], ◌∷◌}
use lapuacore.Mutex.Map.{get}
use lapuacore.Domains.Commons.{side_buy}
use lapuacore.Deals.Order.{pending}
use lapuacore.Deals.Order.New.{new_order}
use lapuacore.Deals.Messages.{OrderData, filled}
use lapuacore.Deals.World.{World}
use lapuacore.Deals.Streams.{handle_order_data}
use lapuacore.Deals.Samples.{whole, holding, in_status}
use lapuacore.Gateways.Messages.{translated}
use lapuacore.Gateways.Messages.Bybit
use lapuacore.Gateways.Messages.Coinex
use lapuacore.Gateways.Messages.Strokes.{text}
use lapuacore.Gateways.Topics.{coinex_order_handler, bybit_order_handler}
use lapuacore.Gateways.Topics.Fills.{IsFilledBy, order_handler-IsFilledBy}

abbrev coinex_fill : Coinex.OrderDataDto
coinex_fill = record {
  event = "finish";
  order_id = 3;
  side = "buy";
  amount = "IIIII";
  price = "II";
  unfilled_amount = "";
  filled_amount = "IIIII";
  fee = "I";
  client_id = "a";
  last_filled_amount = "IIIII";
  last_filled_price = "II";
  updated_at = 9;
}

abbrev bybit_fill : Bybit.OrderDataDto
bybit_fill = record {
  order_link_id = "a";
  order_id = "III";
  side = "Buy";
  price = "II";
  qty = "IIIII";
  fee = "I";
  avg_price = "II";
  cum_exec_qty = "IIIII";
  updated_time_ms = "IIIIIIIII";
  order_status = "Filled";
}

abbrev fill : OrderData ℕ
fill = record {
  id = "a";
  public_id = "III";
  side = side_buy;
  price = 2;
  qty = 5;
  avg_exec_price = 2;
  cum_fee = 1;
  cum_exec_qty = 5;
  status = filled;
  arrived_at = some 9;
  confirmed_at = some 10;
}

coinex_fill-read : Coinex.translate_order_data text (some 10) coinex_fill ≡ translated fill
unfolding Coinex.translate_order_data
coinex_fill-read = refl

bybit_fill-read : Bybit.translate_order_data text (some 10) bybit_fill ≡ translated fill
unfolding Bybit.translate_order_data
bybit_fill-read = refl

abbrev pending_world : World ℕ
pending_world = holding (in_status pending)

order_handler-IsFilledBy_example :
    ((w1 : World ℕ) × (coinex_order_handler text
          (handle_order_data ∷ [])
          10
          coinex_fill
          pending_world
        ≡ translated w1)
      × IsFilledBy fill 0 w1)
    × ((w1 : World ℕ) × (bybit_order_handler text "BTCUSDT"
            (handle_order_data ∷ [])
            10
            (("BTCUSDT", bybit_fill) ∷ [])
            pending_world
          ≡ translated w1)
        × IsFilledBy fill 0 w1)
unfolding get new_order
order_handler-IsFilledBy_example =
    order_handler-IsFilledBy fill 0 pending_world text 10 "BTCUSDT" coinex_fill bybit_fill
      coinex_fill-read bybit_fill-read refl refl refl refl
