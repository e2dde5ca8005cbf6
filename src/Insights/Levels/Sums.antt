-- ===== src/Insights/Levels/Sums.antt =====
-- The volume up to a price, as `SumVolume` of domains/insights/price_level.go adds it up.
use lapuacore.Common.{
  ◌≡◌, refl, sym, ◌∙◌, true, List, [], ◌∷◌, if◌then◌else◌, All, All-map, arith, Bool-cases, inl,
  inr,
}
use lapuacore.Domains.Decimal.{Decimal, OrderLaws}
use lapuacore.Domains.Commons.{BookSide, book_side_none, book_side_bid, book_side_ask}
use lapuacore.Insights.Quote.{PriceLevel}
use lapuacore.Insights.Tree.{BTree, BTreeLaws}
use lapuacore.Insights.Tree.Sorted.{IsSorted}
use lapuacore.Insights.Levels.{
  PriceLevelMap, price_less, is_behind, add_volume, sum_volume, sorted_range, range_items,
  range_items-nil, range_items-go_on, range_items-stop,
}
use lapuacore.Insights.Levels.Laws.{IsLadder, price_of}

module _ {D : Type 0} ⦃d : Decimal D⦄ where
  -- The volumes of all levels that are not behind the price, from a sum on.
  unfoldable pub sum_within : BookSide → D → List (PriceLevel D) → D → D
  sum_within side price [] s = s
  sum_within side price (r ∷ l) s =
      if is_behind side price r.price
      then sum_within side price l s
      else sum_within side price l (d.add s r.volume)

  pub sum_all_behind :
      (side : BookSide) (price : D) (l : List (PriceLevel D)) (s : D)
      → All (λ r. is_behind side price r.price ≡ true) l
      → sum_within side price l s ≡ s
  unfolding sum_within
  sum_all_behind side price [] s a = refl
  sum_all_behind side price (r ∷ l) s a = rw a.0 (sum_all_behind side price l s a.1)

  module _ (laws : OrderLaws d) where
    -- What is after a level that is behind is behind.
    pub behind_after :
        (side : BookSide) (price a c : D)
        → is_behind side price a ≡ true
        → price_less side a c ≡ true
        → is_behind side price c ≡ true
    behind_after book_side_bid price a c h k =
        ground (arith, laws.greater_than_lem a c, laws.less_trans c a price)
    behind_after book_side_ask price a c h k = ground (
      arith,
      laws.greater_than_lem a price,
      laws.greater_than_lem c price,
      laws.less_trans price a c,
    )
    behind_after book_side_none price a c h k = ground arith

    add_up :
        (side : BookSide) (price : D) (l : List (PriceLevel D)) (s : D)
        → IsSorted (price_less side) price_of l
        → range_items (add_volume side price) l s ≡ sum_within side price l s
    unfolding sum_within add_volume
    add_up side price [] s o = range_items-nil (add_volume side price) s
    add_up side price (r ∷ l) s o = elim (Bool-cases (is_behind side price r.price)) [
      | inl e ↦
          range_items-stop (add_volume side price) r l s (rw e refl)
          ∙ rw e (
              sym (
                sum_all_behind side price l s
                  (All-map _ _ l (λ c h. behind_after side price r.price c.price e h) o.0)))
      | inr e ↦
          range_items-go_on (add_volume side price) r l s (rw e refl)
          ∙ rw e (add_up side price l (d.add s r.volume) o.1)
    ]

module _ {D T : Type 0} ⦃d : Decimal D⦄ (b : BTree (PriceLevel D) T) (tree : BTreeLaws b)
    (laws : OrderLaws d) where
  pub sum_volume_lem :
      (price : D) (m : PriceLevelMap D T)
      → IsLadder b tree laws m
      → sum_volume b price m ≡ sum_within m.q price (b.ascend m.tree) d.zero_dec
  unfolding sum_volume sorted_range
  sum_volume_lem price m v = add_up laws m.q price (b.ascend m.tree) d.zero_dec v.sorted
