-- ===== src/Insights/Book/Best.antt =====
-- The best levels that `UpdateByOBData` of domains/insights/orderbook_handlers.go keeps.
use lapuacore.Common.{◌≡◌, sym, false, List, [], ◌∷◌, arith, All, All-map}
use lapuacore.Domains.Commons.{BookSide, book_side_bid, book_side_ask}
use lapuacore.Domains.Decimal.{Decimal, OrderLaws}
use lapuacore.Insights.Quote.{PriceLevel}
use lapuacore.Insights.Tree.{BTree, BTreeLaws, first}
use lapuacore.Insights.Tree.Sorted.{IsSorted}
use lapuacore.Insights.Levels.{PriceLevelMap, price_less, best_level, or_empty}
use lapuacore.Insights.Levels.Laws.{IsLadder, price_of, price_less-IsStrict}
use lapuacore.Insights.Book.{OrderBookImpl, OrderBookData, update_by_ob_data}
use lapuacore.Insights.Book.Run.{IsBook, best-update_by_ob_data, update_by_ob_data-IsBook}

module _ {D T : Type 0} ⦃d : Decimal D⦄ (b : BTree (PriceLevel D) T) (tree : BTreeLaws b)
    (laws : OrderLaws d) where
  -- The first of the items in order is the best.
  first_is_best :
      (side : BookSide) (l : List (PriceLevel D))
      → IsSorted (price_less side) price_of l
      → All (λ r. price_less side r.price (or_empty (first l)).price ≡ false) l
  first_is_best side [] o = tt
  first_is_best side (y ∷ l) o =
      let s = price_less-IsStrict laws side in
      (
        s.lt_irrefl y.price,
        All-map _ _ l
            (λ r h. ground (arith, s.lt_trans y.price r.price y.price, s.lt_irrefl y.price)) o.0,
      )

  best_level_lem :
      (side : BookSide) (m : PriceLevelMap D T)
      → m.q ≡ side
      → IsLadder b tree laws m
      → All (λ r. price_less side r.price (best_level b m).price ≡ false) (b.ascend m.tree)
  unfolding best_level
  best_level_lem side m e v =
      rw (tree.min_item_lem m.tree, sym e) (first_is_best m.q (b.ascend m.tree) v.sorted)

  -- After a message, no level of a side has a better price than the best level that is kept for the
  -- side: none of the asks a lower one, none of the bids a higher one. It holds for a B-tree and decimals
  -- that behave as documented, from any book whose sides are ladders.
  pub best_is_best :
      (p : OrderBookImpl D T) (v : IsBook b tree laws p) (msg : OrderBookData D)
      → let p' = update_by_ob_data b msg p in
        All
          (λ r. d.less_than r.price (or_empty p'.current_best_ask).price ≡ false)
          (b.ascend p'.asks_map.tree)
        × All
            (λ r. d.greater_than r.price (or_empty p'.current_best_bid).price ≡ false)
            (b.ascend p'.bids_map.tree)
  best_is_best p v msg =
      let p' = update_by_ob_data b msg p in
      let w = update_by_ob_data-IsBook b tree laws p v msg in
      let (a, c) = best-update_by_ob_data b tree laws p v msg in
      rw (a, c)
        (
          best_level_lem book_side_ask p'.asks_map w.asks_side w.asks_ladder,
          best_level_lem book_side_bid p'.bids_map w.bids_side w.bids_ladder,
        )
