-- ===== src/Insights/Trade.antt =====
-- domains/insights/trade.go: the sums over a list of trades, and the updates. `TradeImpl` keeps its
-- handlers, closures of the strategy by number, and `fired` holds their calls, those of the newest message first.
use lapuacore.Common.{ℕ, Bool, Option, none, some, List, [], ◌∷◌, ◌++◌, is_some}
use lapuacore.Domains.Decimal.{Decimal}
use lapuacore.Domains.Commons.{Side, side_buy, side_sell}
use lapuacore.Deals.Order.New.{to_size}

pub record TradeData (D : Type 0) : Type 0 where
  pub exec_at : ℕ
  pub arrived_at : ℕ
  pub side : Side
  pub volume : D
  pub price : D

pub record TradeImpl : Type 0 where
  pub handlers : List ℕ
  pub last_update_at : Option ℕ
  pub fired : List ℕ

unfoldable pub new_trade : TradeImpl
new_trade = record { handlers = []; last_update_at = none; fired = [] }

unfoldable pub set_trade_callback : ℕ → TradeImpl → TradeImpl
set_trade_callback c t = record t { handlers = t.handlers ++ c ∷ [] }

unfoldable pub update_trade : ℕ → TradeImpl → TradeImpl
update_trade now t = record t { last_update_at = some now; fired = t.handlers ++ t.fired }

unfoldable pub is_trade_ready : TradeImpl → Bool
is_trade_ready t = is_some t.last_update_at

module _ {D : Type 0} ⦃d : Decimal D⦄ where
  unfoldable pub get_trade_size : TradeData D → D
  unfolding to_size
  get_trade_size m = to_size m.side m.volume

  abbrev pub volume_if_sell : Side → D → D → D
  volume_if_sell side_sell volume sum = d.add sum volume
  volume_if_sell _ volume sum = sum

  abbrev pub volume_if_buy : Side → D → D → D
  volume_if_buy side_buy volume sum = d.add sum volume
  volume_if_buy _ volume sum = sum

  -- The loops, from a sum on.
  unfoldable pub sum_size_from : D → List (TradeData D) → D
  unfolding get_trade_size
  sum_size_from sum [] = sum
  sum_size_from sum (m ∷ l) = sum_size_from (d.add sum (get_trade_size m)) l

  unfoldable pub sum_sell_from : D → List (TradeData D) → D
  sum_sell_from sum [] = sum
  sum_sell_from sum (m ∷ l) = sum_sell_from (volume_if_sell m.side m.volume sum) l

  unfoldable pub sum_buy_from : D → List (TradeData D) → D
  sum_buy_from sum [] = sum
  sum_buy_from sum (m ∷ l) = sum_buy_from (volume_if_buy m.side m.volume sum) l

  unfoldable pub get_sum_size : List (TradeData D) → D
  unfolding sum_size_from
  get_sum_size l = sum_size_from d.zero_dec l

  unfoldable pub get_sum_sell_volume : List (TradeData D) → D
  unfolding sum_sell_from
  get_sum_sell_volume l = sum_sell_from d.zero_dec l

  unfoldable pub get_sum_buy_volume : List (TradeData D) → D
  unfolding sum_buy_from
  get_sum_buy_volume l = sum_buy_from d.zero_dec l
