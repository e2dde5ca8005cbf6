-- ===== src/Insights/Book/Volumes.antt =====
-- The volume sums of a book: `CalculateAsksVolSumMap` and its like in domains/insights/orderbook.go.
use lapuacore.Common.{
  ◌≡◌, refl, sym, ap, subst, ◌∙◌, true, false, Option, none, List, [], ◌∷◌, if◌then◌else◌, All,
  All-map, arith, Bool-cases, inl, inr, is_some,
}
use lapuacore.Domains.Decimal.{Decimal, OrderLaws}
use lapuacore.Domains.Commons.{BookSide, book_side_bid, book_side_ask}
use lapuacore.Insights.Quote.{PriceLevel}
use lapuacore.Insights.Tree.{BTree, BTreeLaws, find_item}
use lapuacore.Insights.Tree.Sorted.{IsSorted, find_below}
use lapuacore.Insights.Levels.{
  PriceLevelMap, price_less, level_less, at_price, is_behind, set_level, sum_volume, sorted_range,
  range_items, range_items-nil, range_items-go_on, new_price_level_map,
}
use lapuacore.Insights.Levels.Laws.{
  IsLadder, price_of, same_price, same_price-side, price_less-IsStrict, read, get-set_level,
  set_level-IsLadder, new-IsLadder, get-new_price_level_map,
}
use lapuacore.Insights.Levels.Sums.{sum_within, sum_all_behind, sum_volume_lem}
use lapuacore.Insights.Book.{OrderBookImpl}
use lapuacore.Insights.Book.Reads.{
  add_vol_sum, vol_sum_map, calculate_asks_vol_sum_map, calculate_bids_vol_sum_map, book_sum_volume,
}
use lapuacore.Insights.Book.View.{kept, view}
use lapuacore.Insights.Book.Run.{IsBook}

module _ {D : Type 0} ⦃d : Decimal D⦄ where
  -- A level of a sum map.
  abbrev pub sum_level : D → D → PriceLevel D
  sum_level p v = record { seq_id = 0; price = p; volume = v }

module _ {D T : Type 0} ⦃d : Decimal D⦄ (b : BTree (PriceLevel D) T) (tree : BTreeLaws b)
    (laws : OrderLaws d) where
  module _ (side : BookSide) (p : D)
      (behind : (c : D) → is_behind side p c ≡ price_less side p c) where
    -- What the closure leaves at a price.
    view-add_vol_sum :
        (r : PriceLevel D) (s : D) (sums : PriceLevelMap D T)
        → IsLadder b tree laws sums
        → view b tree laws (set_level b (sum_level r.price (d.add s r.volume)) sums) p ≡ (
            if same_price p r.price
            then kept (sum_level r.price (d.add s r.volume))
            else view b tree laws sums p)
    view-add_vol_sum r s sums v =
        get-set_level b tree laws sums v p (sum_level r.price (d.add s r.volume))

    sums_of : List (PriceLevel D) → D → PriceLevelMap D T → Option (PriceLevel D)
    sums_of l s sums =
        if is_some (find_item (level_less side) (at_price p) l)
        then kept (sum_level p (sum_within side p l s))
        else view b tree laws sums p

    -- The level at the price itself, and the ones after it.
    sums_at :
        (r : PriceLevel D) (l : List (PriceLevel D)) (s : D) (sums : PriceLevelMap D T)
        → IsLadder b tree laws sums
        → IsSorted (price_less side) price_of (r ∷ l)
        → sums_of l (d.add s r.volume) (set_level b (sum_level r.price (d.add s r.volume)) sums)
          ≡ sums_of (r ∷ l) s sums
    unfolding sums_of sum_within find_item
    sums_at r l s sums v o =
        let t = price_less-IsStrict laws side in
        let gone : price_less side r.price p ≡ false
            → find_item (level_less side) (at_price p) l ≡ none =
          λ h. find_below (price_less side) price_of t (at_price p) r.price l h o.0 in
        let same = same_price-side laws side p r.price in
        elim (Bool-cases (price_less side p r.price)) [
          | inl e ↦
              let n : price_less side r.price p ≡ false =
                ground (arith, t.lt_trans p r.price p, t.lt_irrefl p) in
              rw (e, gone n) (view-add_vol_sum r s sums v ∙ rw (sym same, e) refl)
          | inr e ↦ elim (Bool-cases (price_less side r.price p)) [
            | inl k ↦
                rw (e, k, behind r.price, e) (rw (view-add_vol_sum r s sums v, sym same, e, k) refl)
            | inr k ↦
                let q : p ≡ r.price = t.eq_of_lt p r.price e k in
                let after : All (λ c. is_behind side p c.price ≡ true) l =
                  All-map _ _ l
                    (λ c h.
                      behind c.price ∙ subst (λ z. price_less side z c.price ≡ true) (sym q) h)
                    o.0 in
                let total = d.add s r.volume in
                rw (e, k, gone k, behind r.price, e, sum_all_behind side p l total after)
                  (rw (view-add_vol_sum r s sums v, sym same, e, k)
                    (ap (λ z. kept (sum_level z total)) (sym q)))
          ]
        ]

    sums_fold :
        (l : List (PriceLevel D)) (s : D) (sums : PriceLevelMap D T)
        → IsLadder b tree laws sums
        → IsSorted (price_less side) price_of l
        → view b tree laws (range_items (add_vol_sum b) l (s, sums)).1 p ≡ sums_of l s sums
    unfolding add_vol_sum sums_of find_item
    sums_fold [] s sums v o =
        ap (λ q. view b tree laws q.1 p) (range_items-nil (add_vol_sum b) (s, sums))
    sums_fold (r ∷ l) s sums v o =
        ap (λ q. view b tree laws q.1 p) (range_items-go_on (add_vol_sum b) r l (s, sums) refl)
        ∙ sums_fold l (d.add s r.volume) (set_level b (sum_level r.price (d.add s r.volume)) sums)
            (set_level-IsLadder b tree laws sums v _) o.1
        ∙ sums_at r l s sums v o

    vol_sum_map_lem :
        (ts : D) (m : PriceLevelMap D T)
        → m.q ≡ side
        → IsLadder b tree laws m
        → view b tree laws (vol_sum_map b side ts m) p
          ≡ (if is_some (view b tree laws m p) then kept (sum_level p (sum_volume b p m)) else none)
    unfolding vol_sum_map sorted_range sums_of
    vol_sum_map_lem ts m e v =
        let from = b.ascend m.tree in
        sums_fold from d.zero_dec (new_price_level_map b side ts) (new-IsLadder b tree laws side ts)
          (subst (λ k. IsSorted (price_less k) price_of from) e v.sorted)
        ∙ rw
            (
              get-new_price_level_map b tree laws side ts p,
              sum_volume_lem b tree laws p m v,
              read b tree laws m v p,
              e,
            )
            refl

  -- The sum map of the asks has a level exactly at the prices of the asks whose volumes up to there do
  -- not sum to zero, with the sum that `SumVolume` gives for the price; so does that of the bids. It
  -- holds for a B-tree and decimals that behave as documented, and a book whose sides are ladders.
  pub vol_sum_maps_agree :
      (p : OrderBookImpl D T) (price : D)
      → IsBook b tree laws p
      → (view b tree laws (calculate_asks_vol_sum_map b p) price ≡ (
          if is_some (view b tree laws p.asks_map price)
          then kept (sum_level price (book_sum_volume b book_side_ask price p))
          else none))
        × (view b tree laws (calculate_bids_vol_sum_map b p) price ≡ (
            if is_some (view b tree laws p.bids_map price)
            then kept (sum_level price (book_sum_volume b book_side_bid price p))
            else none))
  unfolding calculate_asks_vol_sum_map calculate_bids_vol_sum_map book_sum_volume
  vol_sum_maps_agree p price v = (
    vol_sum_map_lem book_side_ask price (λ c. ground (arith, laws.greater_than_lem c price))
        p.tick_size p.asks_map v.asks_side v.asks_ladder,
    vol_sum_map_lem book_side_bid price (λ c. ground (arith, laws.greater_than_lem price c))
        p.tick_size p.bids_map v.bids_side v.bids_ladder,
  )
