-- ===== src/Insights/Levels.antt =====
-- domains/insights/price_level.go: the price levels of one side of a book, in a B-tree that is
-- ordered from the best price to the worst. Each method runs under the lock, as one step.
pub mod Laws
pub mod Sums
use lapuacore.Common.{
  ℕ, ◌≡◌, refl, ap, Bool, true, false, ◌&&◌, Option, none, some, List, [], ◌∷◌, ltb, if◌then◌else◌,
}
use lapuacore.Domains.Decimal.{Decimal}
use lapuacore.Domains.Commons.{BookSide, book_side_none, book_side_bid, book_side_ask}
use lapuacore.Insights.Quote.{PriceLevel}
use lapuacore.Insights.Tree.{BTree}

-- `q` is the side, `ts` the tick size.
pub record PriceLevelMap (D T : Type 0) : Type 0 where
  pub ts : D
  pub q : BookSide
  pub tree : T

-- `bookSide == domains.BookSideBid`, and the like.
abbrev pub is_bid : BookSide → Bool
is_bid book_side_bid = true
is_bid _ = false

abbrev pub is_ask : BookSide → Bool
is_ask book_side_ask = true
is_ask _ = false

module _ {D : Type 0} where
  unfoldable pub is_old : PriceLevel D → ℕ → Bool
  is_old r now_id = ltb r.seq_id now_id

  -- The loop of `Range` and `SortedRange`, over the state that the closure changes.
  unfoldable pub range_items {κ} :
      {S : Type κ} → (PriceLevel D → S → S × Bool) → List (PriceLevel D) → S → S
  range_items f [] s = s
  range_items f (r ∷ l) s =
      let (s', go_on) = f r s in elim go_on [ true ↦ range_items f l s' | false ↦ s' ]

module _ {κ} {D : Type 0} {S : Type κ} (f : PriceLevel D → S → S × Bool) where
  pub range_items-nil : (s : S) → range_items f [] s ≡ s
  unfolding range_items
  range_items-nil s = refl

  pub range_items-go_on :
      (r : PriceLevel D) (l : List (PriceLevel D)) (s : S)
      → (f r s).1 ≡ true
      → range_items f (r ∷ l) s ≡ range_items f l (f r s).0
  unfolding range_items
  range_items-go_on r l s h =
      ap (λ go. elim go [ true ↦ range_items f l (f r s).0 | false ↦ (f r s).0 ]) h

  pub range_items-stop :
      (r : PriceLevel D) (l : List (PriceLevel D)) (s : S)
      → (f r s).1 ≡ false
      → range_items f (r ∷ l) s ≡ (f r s).0
  unfolding range_items
  range_items-stop r l s h =
      ap (λ go. elim go [ true ↦ range_items f l (f r s).0 | false ↦ (f r s).0 ]) h

module _ {D : Type 0} ⦃d : Decimal D⦄ where
  -- The order of the prices on a side, and of the levels: the `less` of `newPriceLevelMap`.
  abbrev pub price_less : BookSide → D → D → Bool
  price_less side a b = if is_bid side then d.greater_than a b else d.less_than a b

  abbrev pub level_less : BookSide → PriceLevel D → PriceLevel D → Bool
  level_less side a b = price_less side a.price b.price

  -- `PriceLevel{Price: price}`.
  abbrev pub at_price : D → PriceLevel D
  at_price price = record { seq_id = 0; price = price; volume = d.zero_dec }

  -- `PriceLevel{}` where there is no level.
  abbrev pub or_empty : Option (PriceLevel D) → PriceLevel D
  or_empty none = at_price d.zero_dec
  or_empty (some r) = r

  -- A level that is behind the price asked for ends the loop of `SumVolume`.
  abbrev pub is_behind : BookSide → D → D → Bool
  is_behind side price level_price =
      if is_ask side && d.greater_than level_price price
      then true
      else is_bid side && d.less_than level_price price

  unfoldable pub add_volume : BookSide → D → PriceLevel D → D → D × Bool
  add_volume side price r sum =
      if is_behind side price r.price then (sum, false) else (d.add sum r.volume, true)

  -- The closure of `AvgExecPrice`, over the quantity that remains and the weighted sum.
  unfoldable pub take_volume : PriceLevel D → D × D → (D × D) × Bool
  take_volume r (remaining, weighted) =
      let next = d.sub remaining r.volume in
      if d.less_than_or_equal next d.zero_dec
      then ((remaining, d.add weighted (d.mul r.price remaining)), false)
      else ((next, d.add weighted (d.mul r.price r.volume)), true)

module _ {D T : Type 0} ⦃d : Decimal D⦄ (b : BTree (PriceLevel D) T) where
  unfoldable pub new_price_level_map : BookSide → D → PriceLevelMap D T
  new_price_level_map side tick_size = record {
    ts = tick_size;
    q = side;
    tree = b.new_g (level_less side);
  }

  unfoldable pub set_level : PriceLevel D → PriceLevelMap D T → PriceLevelMap D T
  set_level r m =
      if d.is_zero r.volume
      then record m { tree = b.delete_item (at_price r.price) m.tree }
      else record m { tree = b.replace_or_insert r m.tree }

  unfoldable pub get_level : D → PriceLevelMap D T → Option (PriceLevel D)
  get_level price m = b.get_item (at_price price) m.tree

  unfoldable pub drop_level : D → PriceLevelMap D T → PriceLevelMap D T
  drop_level price m = record m { tree = b.delete_item (at_price price) m.tree }

  unfoldable pub len_levels : PriceLevelMap D T → ℕ
  len_levels m = b.len_items m.tree

  unfoldable pub replace_levels : PriceLevelMap D T → PriceLevelMap D T → PriceLevelMap D T
  replace_levels r m = record m { tree = r.tree }

  unfoldable pub sorted_range {κ} :
      {S : Type κ} → (PriceLevel D → S → S × Bool) → PriceLevelMap D T → S → S
  unfolding range_items
  sorted_range f m s = range_items f (b.ascend m.tree) s

  unfoldable pub best_level : PriceLevelMap D T → PriceLevel D
  best_level m = or_empty (b.min_item m.tree)

  unfoldable pub sum_volume : D → PriceLevelMap D T → D
  unfolding sorted_range add_volume
  sum_volume price m = sorted_range (add_volume m.q price) m d.zero_dec

  unfoldable pub avg_exec_price : D → PriceLevelMap D T → D
  unfolding sorted_range take_volume
  avg_exec_price qty m = d.div (sorted_range take_volume m (qty, d.zero_dec)).1 qty
