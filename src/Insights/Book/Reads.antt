-- ===== src/Insights/Book/Reads.antt =====
-- domains/insights/orderbook.go: what a strategy reads from an order book. Logging is left out.
use lapuacore.Common.{ℕ, Bool, true, List, [], ◌∷◌, ◌++◌, ltb, length}
use lapuacore.Domains.Decimal.{Decimal}
use lapuacore.Domains.Commons.{
  Side, side_none, side_buy, side_sell, BookSide, book_side_none, book_side_bid, book_side_ask,
}
use lapuacore.Insights.Quote.{PriceLevel}
use lapuacore.Insights.Tree.{BTree}
use lapuacore.Insights.Levels.{
  PriceLevelMap, new_price_level_map, set_level, sorted_range, sum_volume, avg_exec_price,
}
use lapuacore.Insights.Book.{OrderBookImpl}

-- The closure of `GetAsks` and `GetBids`.
unfoldable pub collect_level :
    {D : Type 0} → ℕ → PriceLevel D → List (PriceLevel D) → List (PriceLevel D) × Bool
collect_level depth r levels = let longer = levels ++ r ∷ [] in (longer, ltb (length longer) depth)

module _ {D T : Type 0} ⦃d : Decimal D⦄ (b : BTree (PriceLevel D) T) where
  unfoldable pub round_to_tick : D → OrderBookImpl D T → D
  round_to_tick price p = d.mul (d.truncate (d.div price p.tick_size)) p.tick_size

  unfoldable pub best_price_near : D → OrderBookImpl D T → D × D
  unfolding round_to_tick
  best_price_near mid p = (d.add (round_to_tick mid p) p.tick_size, round_to_tick mid p)

  unfoldable pub book_sum_volume : BookSide → D → OrderBookImpl D T → D
  book_sum_volume book_side_ask price p = sum_volume b price p.asks_map
  book_sum_volume book_side_bid price p = sum_volume b price p.bids_map
  book_sum_volume book_side_none price p = d.zero_dec

  unfoldable pub book_avg_exec_price : BookSide → D → OrderBookImpl D T → D
  unfolding round_to_tick
  book_avg_exec_price book_side_ask qty p = round_to_tick (avg_exec_price b qty p.asks_map) p
  book_avg_exec_price book_side_bid qty p = round_to_tick (avg_exec_price b qty p.bids_map) p
  book_avg_exec_price book_side_none qty p = d.zero_dec

  unfoldable pub avg_exec_price_by_side : Side → D → OrderBookImpl D T → D
  unfolding round_to_tick
  avg_exec_price_by_side side_buy qty p = round_to_tick (avg_exec_price b qty p.asks_map) p
  avg_exec_price_by_side side_sell qty p = round_to_tick (avg_exec_price b qty p.bids_map) p
  avg_exec_price_by_side side_none qty p = d.zero_dec

  -- The closure of `CalculateAsksVolSumMap`, over the sum and the map that it fills.
  unfoldable pub add_vol_sum : PriceLevel D → D × PriceLevelMap D T → (D × PriceLevelMap D T) × Bool
  add_vol_sum r (sum, sums) =
      let total = d.add sum r.volume in
      ((total, set_level b (record { seq_id = 0; price = r.price; volume = total }) sums), true)

  unfoldable pub vol_sum_map : BookSide → D → PriceLevelMap D T → PriceLevelMap D T
  unfolding sorted_range add_vol_sum
  vol_sum_map side tick_size m =
      (sorted_range b add_vol_sum m (d.zero_dec, new_price_level_map b side tick_size)).1

  unfoldable pub calculate_asks_vol_sum_map : OrderBookImpl D T → PriceLevelMap D T
  unfolding vol_sum_map
  calculate_asks_vol_sum_map p = vol_sum_map book_side_ask p.tick_size p.asks_map

  unfoldable pub calculate_bids_vol_sum_map : OrderBookImpl D T → PriceLevelMap D T
  unfolding vol_sum_map
  calculate_bids_vol_sum_map p = vol_sum_map book_side_bid p.tick_size p.bids_map

  unfoldable pub get_asks : ℕ → OrderBookImpl D T → List (PriceLevel D)
  unfolding sorted_range collect_level
  get_asks depth p = sorted_range b (collect_level depth) p.asks_map []

  unfoldable pub get_bids : ℕ → OrderBookImpl D T → List (PriceLevel D)
  unfolding sorted_range collect_level
  get_bids depth p = sorted_range b (collect_level depth) p.bids_map []
