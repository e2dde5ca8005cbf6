-- ===== src/Gateways/Messages/Examples.antt =====
-- What the theorems on messages say at concrete values.
use lapuacore.Common.{ℕ, ◌≡◌, refl, false, true, [], ◌∷◌}
use lapuacore.Insights.Book.{OrderBookData, delta}
use lapuacore.Gateways.Messages.Bybit as BybitMessages
use lapuacore.Gateways.Messages.Coinex as CoinexMessages
use lapuacore.Gateways.Messages.Laws.{
  print_bybit, translate-print, is_panicked, translate_order_book_safe,
}
use lapuacore.Deals.Samples.{whole}
use lapuacore.Gateways.Messages.{translated}
use lapuacore.Gateways.Messages.Strokes.{text, text-TextLaws}

abbrev change : OrderBookData ℕ
change = record {
  data_type = delta;
  exec_at = 3;
  arrived_at = 4;
  bids = record { seq_id = 2; price = 1; volume = 0 } ∷ [];
  asks = record { seq_id = 2; price = 3; volume = 2 } ∷ [];
  seq_id = 2;
}

translate-print_example :
    BybitMessages.translate_order_book text 4 (print_bybit text change) ≡ translated change
translate-print_example = translate-print text text-TextLaws change (refl, tt) (refl, tt)

abbrev coinex_message : CoinexMessages.OrderBookMsgDto
coinex_message = record {
  is_snapshot = true;
  updated_at = 7;
  bids = [];
  asks = ("III" ∷ "II" ∷ []) ∷ [];
}

translate_order_book_safe_example :
    (is_panicked (BybitMessages.translate_order_book text 4 (print_bybit text change)) ≡ false)
    × (is_panicked (CoinexMessages.translate_order_book text 4 coinex_message) ≡ false)
translate_order_book_safe_example =
    translate_order_book_safe text 4 (print_bybit text change) coinex_message (refl, tt) (refl, tt)
      (refl, tt) tt
