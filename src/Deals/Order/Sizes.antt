-- ===== src/Deals/Order/Sizes.antt =====
-- domains/deals/order.go, `sumSize` of a map of orders. Go iterates a map in no fixed order.
use lapuacore.Common.{ℕ, Bool, true, String}
use lapuacore.Mutex.Map.{Map, range}
use lapuacore.Domains.Decimal.{Decimal}
use lapuacore.Deals.Order.{Order}
use lapuacore.Deals.Order.New.{get_size}

module _ {D : Type 0} ⦃d : Decimal D⦄ where
  -- The closure of `sumSize`.
  unfoldable pub add_size : (ℕ → Order D) → String → ℕ → D → D × Bool
  add_size h k p sum = (d.add sum (get_size (h p)), true)

  unfoldable pub sum_size : (ℕ → Order D) → Map String ℕ → D
  unfolding range add_size
  sum_size h m = range (add_size h) m d.zero_dec
