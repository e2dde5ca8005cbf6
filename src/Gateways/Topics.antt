-- ===== src/Gateways/Topics.antt =====
-- internal/gateways/exchanges/*/ws/topics/: the `MsgHandler` of the topics, from the decoded message to the
-- calls of the handlers that were set. A handler is a function on the state that it changes. What JSON
-- makes of a message is an argument; `failed` stands for an error that the channel logs.
pub mod Fills
pub mod Examples
use lapuacore.Common.{
  ℕ, Bool, Option, none, some, List, [], ◌∷◌, String, ◌==◌, string_eq, if◌then◌else◌,
}
use lapuacore.Domains.Decimal.{Decimal}
use lapuacore.Deals.Messages.{OrderData, PositionData}
use lapuacore.Insights.Quote.{QuoteData}
use lapuacore.Insights.Trade.{TradeData}
use lapuacore.Insights.Book.{OrderBookData}
use lapuacore.Gateways.Messages.{Text, Translated, translated, failed, panicked, ◌>>=◌}
use lapuacore.Gateways.Messages.Bybit
use lapuacore.Gateways.Messages.Coinex

-- `for _, h := range handlers { h(data) }`.
module _ {κ} {A : Type 0} {W : Type κ} where
  unfoldable pub call_handlers : List (A → W → W) → A → W → W
  call_handlers [] a w = w
  call_handlers (h ∷ hs) a w = call_handlers hs a (h a w)

  unfoldable pub deliver : List (A → W → W) → Translated A → W → Translated W
  unfolding call_handlers
  deliver hs m w = do a ← m; translated (call_handlers hs a w)

-- The topics of private messages hand over a list.
abbrev pub singleton : {A : Type 0} → Translated A → Translated (List A)
singleton m = m >>= λ a. translated (a ∷ [])

-- The entries of a Bybit message, with the symbol of each: those of one symbol go to its handlers, and an
-- entry that cannot be translated stops the message for all symbols.
module _ {A B : Type 0} (translate : A → Translated B) (symbol : String) where
  abbrev keep_symbol : String → B → List B → List B
  keep_symbol s b rest = if s == symbol then b ∷ rest else rest

  unfoldable pub datas_of_symbol : List (String × A) → Translated (List B)
  datas_of_symbol [] = translated []
  datas_of_symbol ((s, x) ∷ l) = do
    b ← translate x
    rest ← datas_of_symbol l
    translated (keep_symbol s b rest)

-- The handlers of a symbol are called only where it has an entry.
module _ {κ} {B : Type 0} {W : Type κ} where
  unfoldable pub call_for_symbol : List (List B → W → W) → List B → W → W
  unfolding call_handlers
  call_for_symbol hs [] w = w
  call_for_symbol hs (b ∷ l) w = call_handlers hs (b ∷ l) w

  unfoldable pub deliver_by_symbol : List (List B → W → W) → Translated (List B) → W → Translated W
  unfolding call_for_symbol
  deliver_by_symbol hs m w = do l ← m; translated (call_for_symbol hs l w)

module _ {κ} {D : Type 0} {W : Type κ} ⦃d : Decimal D⦄ (t : Text D) where
  unfoldable pub coinex_order_handler :
      List (List (OrderData D) → W → W) → ℕ → Coinex.OrderDataDto → W → Translated W
  unfolding deliver Coinex.translate_order_data
  coinex_order_handler hs now dto w =
      deliver hs (singleton (Coinex.translate_order_data t (some now) dto)) w

  unfoldable pub coinex_position_handler :
      List (List (PositionData D) → W → W) → Coinex.PositionDataDto → W → Translated W
  unfolding deliver Coinex.translate_position
  coinex_position_handler hs dto w = deliver hs (singleton (Coinex.translate_position t dto)) w

  unfoldable pub coinex_order_book_handler :
      List (OrderBookData D → W → W) → ℕ → Coinex.OrderBookMsgDto → W → Translated W
  unfolding deliver Coinex.translate_order_book
  coinex_order_book_handler hs now dto w = deliver hs (Coinex.translate_order_book t now dto) w

  unfoldable pub bybit_order_book_handler :
      List (OrderBookData D → W → W) → ℕ → Bybit.OrderBookMsgDto → W → Translated W
  unfolding deliver Bybit.translate_order_book
  bybit_order_book_handler hs now dto w = deliver hs (Bybit.translate_order_book t now dto) w

  unfoldable pub bybit_order_handler :
      String
      → List (List (OrderData D) → W → W)
      → ℕ
      → List (String × Bybit.OrderDataDto)
      → W
      → Translated W
  unfolding deliver_by_symbol datas_of_symbol Bybit.translate_order_data
  bybit_order_handler symbol hs now dtos w =
      deliver_by_symbol hs (datas_of_symbol (Bybit.translate_order_data t (some now)) symbol dtos) w

  unfoldable pub bybit_position_handler :
      String
      → List (List (PositionData D) → W → W)
      → List (String × Bybit.PositionDataDto)
      → W
      → Translated W
  unfolding deliver_by_symbol datas_of_symbol Bybit.translate_position
  bybit_position_handler symbol hs dtos w =
      deliver_by_symbol hs (datas_of_symbol (Bybit.translate_position t) symbol dtos) w

  unfoldable pub coinex_trade_handler :
      List (List (TradeData D) → W → W) → ℕ → List Coinex.TradeDataDto → W → Translated W
  unfolding deliver Coinex.translate_trades
  coinex_trade_handler hs now dtos w = deliver hs (Coinex.translate_trades t now dtos) w

  unfoldable pub coinex_book_ticker_handler :
      List (QuoteData D → W → W) → ℕ → Coinex.BookTickerMsgDto → W → Translated W
  unfolding deliver Coinex.translate_book_ticker
  coinex_book_ticker_handler hs now dto w = deliver hs (Coinex.translate_book_ticker t now dto) w

  -- An error of the translation is not returned here.
  abbrev or_ignore : W → Translated W → Translated W
  or_ignore w (translated w1) = translated w1
  or_ignore w failed = translated w
  or_ignore w panicked = panicked

  unfoldable pub bybit_trade_handler :
      List (List (TradeData D) → W → W) → ℕ → List Bybit.TradeDataDto → W → Translated W
  unfolding deliver Bybit.translate_trades
  bybit_trade_handler hs now dtos w = or_ignore w (deliver hs (Bybit.translate_trades t now dtos) w)
