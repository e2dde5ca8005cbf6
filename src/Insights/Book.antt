-- ===== src/Insights/Book.antt =====
-- domains/insights/orderbook.go and orderbook_handlers.go: an order book, its updates and what is
-- read from it. `UpdateByOBData` holds a lock for its whole body, as one step. Callbacks are closures of
-- the strategy, by number, and `fired` holds their calls, in order. Logging is left out.
pub mod Reads
pub mod View
pub mod Overlay
pub mod Snapshot
pub mod Run
pub mod Best
pub mod Volumes
pub mod Examples
use lapuacore.Common.{
  ℕ, Bool, true, false, not, ◌&&◌, Option, none, some, List, [], ◌∷◌, ◌++◌, ltb, length,
  if◌then◌else◌, is_some,
}
use lapuacore.Domains.Decimal.{Decimal}
use lapuacore.Domains.Commons.{
  Side, side_none, side_buy, side_sell, BookSide, book_side_none, book_side_bid, book_side_ask,
}
use lapuacore.Insights.Quote.{PriceLevel}
use lapuacore.Insights.Tree.{BTree}
use lapuacore.Insights.Levels.{
  PriceLevelMap, is_old, new_price_level_map, set_level, get_level, drop_level, replace_levels,
  range_items, sorted_range, best_level, sum_volume, avg_exec_price,
}

pub data DataType : Type 0 where
  unknown_type snapshot delta : DataType

pub record OrderBookData (D : Type 0) : Type 0 where
  pub data_type : DataType
  pub exec_at : ℕ
  pub arrived_at : ℕ
  pub bids : List (PriceLevel D)
  pub asks : List (PriceLevel D)
  pub seq_id : ℕ

-- `deferCallback`: nil, the empty function, or a closure of the strategy.
pub data DeferCallback : Type 0 where
  no_callback empty_callback : DeferCallback
  user_callback : ℕ → DeferCallback

pub record OrderBookImpl (D T : Type 0) : Type 0 where
  pub tick_size : D
  pub min_order_qty : D
  pub last_exec_at : Option ℕ
  pub last_arrived_at : Option ℕ
  pub bids_map : PriceLevelMap D T
  pub asks_map : PriceLevelMap D T
  pub current_best_ask : Option (PriceLevel D)
  pub current_best_bid : Option (PriceLevel D)
  pub before_best_ask : Option (PriceLevel D)
  pub before_best_bid : Option (PriceLevel D)
  pub update_callback : List ℕ
  pub defer_callback : DeferCallback
  pub fired : List ℕ

abbrev pub deferred_calls : DeferCallback → List ℕ
deferred_calls (user_callback c) = c ∷ []
deferred_calls _ = []

module _ {D T : Type 0} where
  unfoldable pub is_book_ready : OrderBookImpl D T → Bool
  is_book_ready p =
      is_some p.current_best_bid
      && is_some p.current_best_ask
      && is_some p.before_best_bid
      && is_some p.before_best_ask
      && is_some p.last_exec_at

  unfoldable pub set_book_callback : ℕ → OrderBookImpl D T → OrderBookImpl D T
  set_book_callback c p = record p { update_callback = p.update_callback ++ c ∷ [] }

  unfoldable pub set_defer_callback : ℕ → OrderBookImpl D T → OrderBookImpl D T
  set_defer_callback c p = record p { defer_callback = user_callback c }

  unfoldable pub drop_defer_callback : OrderBookImpl D T → OrderBookImpl D T
  drop_defer_callback p = record p { defer_callback = empty_callback }

  unfoldable pub record_best_before : OrderBookImpl D T → OrderBookImpl D T
  record_best_before p =
      if is_some p.current_best_ask && is_some p.current_best_bid
      then record p { before_best_ask = p.current_best_ask; before_best_bid = p.current_best_bid }
      else p

  -- The callbacks, and then the deferred one.
  unfoldable pub run_callbacks : OrderBookImpl D T → OrderBookImpl D T
  run_callbacks p = record p {
    fired = p.fired ++ p.update_callback ++ deferred_calls p.defer_callback;
  }

-- A level of a message that is not newer than the one in the book.
abbrev pub is_stale : {D : Type 0} → Option (PriceLevel D) → PriceLevel D → Bool
is_stale none a = false
is_stale (some r) a = not (is_old r a.seq_id)

-- A level in the book that is newer than the one of the snapshot.
abbrev pub is_newer : {D : Type 0} → Option (PriceLevel D) → PriceLevel D → Bool
is_newer none r = false
is_newer (some sr) r = is_old sr r.seq_id

module _ {D T : Type 0} ⦃d : Decimal D⦄ (b : BTree (PriceLevel D) T) where
  unfoldable pub new_order_book : D → D → OrderBookImpl D T
  new_order_book tick_size min_order_qty = record {
    tick_size = tick_size;
    min_order_qty = min_order_qty;
    last_exec_at = none;
    last_arrived_at = none;
    bids_map = new_price_level_map b book_side_bid tick_size;
    asks_map = new_price_level_map b book_side_ask tick_size;
    current_best_ask = none;
    current_best_bid = none;
    before_best_ask = none;
    before_best_bid = none;
    update_callback = [];
    defer_callback = no_callback;
    fired = [];
  }

  -- A round of the loops of `updateByDelta`.
  unfoldable pub delta_level : PriceLevel D → PriceLevelMap D T → PriceLevelMap D T
  delta_level a m =
      if is_stale (get_level b a.price m) a
      then m
      else if d.is_zero a.volume
      then drop_level b a.price m
      else set_level b a m

  unfoldable pub delta_levels : List (PriceLevel D) → PriceLevelMap D T → PriceLevelMap D T
  unfolding delta_level
  delta_levels [] m = m
  delta_levels (a ∷ l) m = delta_levels l (delta_level a m)

  unfoldable pub update_by_delta : OrderBookData D → OrderBookImpl D T → OrderBookImpl D T
  unfolding delta_levels
  update_by_delta msg p = record p {
    asks_map = delta_levels msg.asks p.asks_map;
    bids_map = delta_levels msg.bids p.bids_map;
  }

  unfoldable pub set_levels : List (PriceLevel D) → PriceLevelMap D T → PriceLevelMap D T
  set_levels [] m = m
  set_levels (a ∷ l) m = set_levels l (set_level b a m)

  -- The closure of `Range` in `resetBySnapshot`.
  unfoldable pub keep_newer : PriceLevel D → PriceLevelMap D T → PriceLevelMap D T × Bool
  keep_newer r fresh =
      if is_newer (get_level b r.price fresh) r then (set_level b r fresh, true) else (fresh, true)

  -- One side of `resetBySnapshot`; `side` is that of the fresh map.
  unfoldable pub reset_side :
      BookSide → D → List (PriceLevel D) → PriceLevelMap D T → PriceLevelMap D T
  unfolding set_levels keep_newer sorted_range
  reset_side side tick_size [] m = m
  reset_side side tick_size (a ∷ l) m =
      replace_levels b
        (sorted_range b keep_newer m (set_levels (a ∷ l) (new_price_level_map b side tick_size))) m

  unfoldable pub reset_by_snapshot : OrderBookData D → OrderBookImpl D T → OrderBookImpl D T
  unfolding reset_side
  reset_by_snapshot msg p = record p {
    asks_map = reset_side book_side_ask p.tick_size msg.asks p.asks_map;
    bids_map = reset_side book_side_bid p.tick_size msg.bids p.bids_map;
  }

  unfoldable pub apply_book_data :
      DataType → OrderBookData D → OrderBookImpl D T → OrderBookImpl D T
  unfolding reset_by_snapshot update_by_delta
  apply_book_data snapshot msg p = reset_by_snapshot msg p
  apply_book_data delta msg p = update_by_delta msg p
  apply_book_data unknown_type msg p = p

  unfoldable pub record_best : OrderBookImpl D T → OrderBookImpl D T
  record_best p = record p {
    current_best_ask = some (best_level b p.asks_map);
    current_best_bid = some (best_level b p.bids_map);
  }

  unfoldable pub update_by_ob_data : OrderBookData D → OrderBookImpl D T → OrderBookImpl D T
  unfolding record_best_before apply_book_data record_best run_callbacks
  update_by_ob_data msg p = run_callbacks (
      record_best (
        apply_book_data msg.data_type msg (record (record_best_before p) {
          last_exec_at = some msg.exec_at;
          last_arrived_at = some msg.arrived_at;
        })))
