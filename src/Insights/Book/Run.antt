-- ===== src/Insights/Book/Run.antt =====
-- Messages one after the other: what `UpdateByOBData` of domains/insights/orderbook_handlers.go keeps
-- true of a book, and the book that a strategy reads afterwards.
use lapuacore.Common.{◌≡◌, refl, sym, ap, subst, ◌∙◌, some, List, [], ◌∷◌, arith}
use lapuacore.Domains.Commons.{book_side_bid, book_side_ask}
use lapuacore.Domains.Decimal.{Decimal, OrderLaws}
use lapuacore.Insights.Quote.{PriceLevel}
use lapuacore.Insights.Tree.{BTree, BTreeLaws}
use lapuacore.Insights.Levels.{best_level, new_price_level_map}
use lapuacore.Insights.Levels.Laws.{IsLadder, new-IsLadder}
use lapuacore.Insights.Book.{
  OrderBookImpl, OrderBookData, DataType, unknown_type, snapshot, delta, new_order_book,
  update_by_ob_data, update_by_delta, reset_by_snapshot, apply_book_data, record_best, reset_side,
  record_best_before, run_callbacks,
}
use lapuacore.Insights.Book.View.{
  View, view, delta_views, delta_levels-IsLadder, view-delta_levels, delta_levels-q,
}
use lapuacore.Insights.Book.Overlay.{reset_view}
use lapuacore.Insights.Book.Snapshot.{reset_side-q, reset_side-IsLadder, view-reset_side}

module _ {D : Type 0} ⦃d : Decimal D⦄ where
  -- What a message does to one side of the book as a strategy reads it.
  abbrev pub apply_view : DataType → List (PriceLevel D) → View D → View D
  apply_view snapshot l f = reset_view l f
  apply_view delta l f = delta_views l f
  apply_view unknown_type l f = f

module _ {D T : Type 0} ⦃d : Decimal D⦄ (b : BTree (PriceLevel D) T) (tree : BTreeLaws b)
    (laws : OrderLaws d) where
  pub record IsBook (p : OrderBookImpl D T) : Type 0 where
    pub asks_side : p.asks_map.q ≡ book_side_ask
    pub bids_side : p.bids_map.q ≡ book_side_bid
    pub asks_ladder : IsLadder b tree laws p.asks_map
    pub bids_ladder : IsLadder b tree laws p.bids_map

  -- The two sides of a book.
  abbrev pub views : OrderBookImpl D T → View D × View D
  views p = (view b tree laws p.asks_map, view b tree laws p.bids_map)

  abbrev pub apply_views : OrderBookData D → View D × View D → View D × View D
  apply_views msg v = (apply_view msg.data_type msg.asks v.0, apply_view msg.data_type msg.bids v.1)

  abbrev pub run_book : List (OrderBookData D) → OrderBookImpl D T → OrderBookImpl D T
  run_book [] p = p
  run_book (msg ∷ l) p = run_book l (update_by_ob_data b msg p)

  abbrev pub run_views : List (OrderBookData D) → View D × View D → View D × View D
  run_views [] v = v
  run_views (msg ∷ l) v = run_views l (apply_views msg v)

  -- A new book has two ladders.
  pub new_order_book-IsBook : (ts q : D) → IsBook (new_order_book b ts q)
  unfolding new_order_book new_price_level_map
  new_order_book-IsBook ts q = record {
    asks_side = refl;
    bids_side = refl;
    asks_ladder = new-IsLadder b tree laws book_side_ask ts;
    bids_ladder = new-IsLadder b tree laws book_side_bid ts;
  }

  module _ (p : OrderBookImpl D T) (v : IsBook p) (msg : OrderBookData D) where
    apply-IsBook : (k : DataType) → IsBook (apply_book_data b k msg p)
    unfolding apply_book_data update_by_delta reset_by_snapshot
    apply-IsBook unknown_type = v
    apply-IsBook delta = record {
      asks_side = delta_levels-q b tree laws msg.asks p.asks_map ∙ v.asks_side;
      bids_side = delta_levels-q b tree laws msg.bids p.bids_map ∙ v.bids_side;
      asks_ladder = delta_levels-IsLadder b tree laws msg.asks p.asks_map v.asks_ladder;
      bids_ladder = delta_levels-IsLadder b tree laws msg.bids p.bids_map v.bids_ladder;
    }
    apply-IsBook snapshot =
        rw (sym v.asks_side, sym v.bids_side)
          (record {
            asks_side =
                reset_side-q b tree laws p.asks_map v.asks_ladder p.tick_size msg.asks
                ∙ v.asks_side;
            bids_side =
                reset_side-q b tree laws p.bids_map v.bids_ladder p.tick_size msg.bids
                ∙ v.bids_side;
            asks_ladder =
                reset_side-IsLadder b tree laws p.asks_map v.asks_ladder p.tick_size msg.asks;
            bids_ladder =
                reset_side-IsLadder b tree laws p.bids_map v.bids_ladder p.tick_size msg.bids;
          })

    views-apply :
        (k : DataType)
        → views (apply_book_data b k msg p) ≡ (
          apply_view k msg.asks (view b tree laws p.asks_map),
          apply_view k msg.bids (view b tree laws p.bids_map),
        )
    unfolding apply_book_data update_by_delta reset_by_snapshot
    views-apply unknown_type = refl
    views-apply delta =
        rw
          (
            view-delta_levels b tree laws msg.asks p.asks_map v.asks_ladder,
            view-delta_levels b tree laws msg.bids p.bids_map v.bids_ladder,
          )
          refl
    views-apply snapshot =
        let asks =
          subst
            (λ s.
              view b tree laws (reset_side b s p.tick_size msg.asks p.asks_map)
              ≡ reset_view msg.asks (view b tree laws p.asks_map))
            v.asks_side
            (view-reset_side b tree laws p.asks_map v.asks_ladder p.tick_size msg.asks) in
        let bids =
          subst
            (λ s.
              view b tree laws (reset_side b s p.tick_size msg.bids p.bids_map)
              ≡ reset_view msg.bids (view b tree laws p.bids_map))
            v.bids_side
            (view-reset_side b tree laws p.bids_map v.bids_ladder p.tick_size msg.bids) in
        rw (asks, bids) refl

  module _ (p : OrderBookImpl D T) (v : IsBook p) (msg : OrderBookData D) where
    -- The fields that a message sets before its levels leave the sides alone.
    before_levels : OrderBookImpl D T
    before_levels = record (record_best_before p) {
      last_exec_at = some msg.exec_at;
      last_arrived_at = some msg.arrived_at;
    }

    before_levels-asks : before_levels.asks_map ≡ p.asks_map
    unfolding before_levels record_best_before
    before_levels-asks = ground arith

    before_levels-bids : before_levels.bids_map ≡ p.bids_map
    unfolding before_levels record_best_before
    before_levels-bids = ground arith

    before_levels-IsBook : IsBook before_levels
    before_levels-IsBook = record {
      asks_side = rw before_levels-asks v.asks_side;
      bids_side = rw before_levels-bids v.bids_side;
      asks_ladder = rw before_levels-asks v.asks_ladder;
      bids_ladder = rw before_levels-bids v.bids_ladder;
    }

    update_by_ob_data_maps :
        let q = apply_book_data b msg.data_type msg before_levels in
        ((update_by_ob_data b msg p).asks_map ≡ q.asks_map)
        × ((update_by_ob_data b msg p).bids_map ≡ q.bids_map)
    unfolding update_by_ob_data record_best run_callbacks before_levels
    update_by_ob_data_maps = (refl, refl)

    -- Every message keeps both sides ladders of the right side.
    pub update_by_ob_data-IsBook : IsBook (update_by_ob_data b msg p)
    update_by_ob_data-IsBook =
        let (asks, bids) = update_by_ob_data_maps in
        let w = apply-IsBook before_levels before_levels-IsBook msg msg.data_type in
        record {
          asks_side = rw asks w.asks_side;
          bids_side = rw bids w.bids_side;
          asks_ladder = rw asks w.asks_ladder;
          bids_ladder = rw bids w.bids_ladder;
        }

    views-update_by_ob_data : views (update_by_ob_data b msg p) ≡ apply_views msg (views p)
    views-update_by_ob_data =
        let (asks, bids) = update_by_ob_data_maps in
        rw (asks, bids, sym before_levels-asks, sym before_levels-bids)
          (views-apply before_levels before_levels-IsBook msg msg.data_type)

    -- The best levels kept are those of the sides as the message left them.
    pub best-update_by_ob_data :
        let p' = update_by_ob_data b msg p in
        (p'.current_best_ask ≡ some (best_level b p'.asks_map))
        × (p'.current_best_bid ≡ some (best_level b p'.bids_map))
    unfolding update_by_ob_data record_best run_callbacks
    best-update_by_ob_data = (refl, refl)

  run_book-IsBook :
      (l : List (OrderBookData D)) (p : OrderBookImpl D T) → IsBook p → IsBook (run_book l p)
  run_book-IsBook [] p v = v
  run_book-IsBook (msg ∷ l) p v =
      run_book-IsBook l (update_by_ob_data b msg p) (update_by_ob_data-IsBook p v msg)

  -- A book after any messages shows a strategy the levels that the messages say, in their order. A
  -- delta's level is dropped where the book has a level at its price with the same or a greater
  -- sequence ID; else it takes the price, or empties it where its volume is zero. A snapshot without
  -- levels for a side leaves the side alone; else its levels replace the side, save that the book's
  -- level stays where its sequence ID is greater than that of the snapshot's at the price. A message
  -- of another type changes no level. It holds for a B-tree and decimals that behave as documented.
  pub run_book_refines :
      (l : List (OrderBookData D)) (p : OrderBookImpl D T)
      → IsBook p
      → views (run_book l p) ≡ run_views l (views p)
  run_book_refines [] p v = refl
  run_book_refines (msg ∷ l) p v =
      run_book_refines l (update_by_ob_data b msg p) (update_by_ob_data-IsBook p v msg)
      ∙ ap (run_views l) (views-update_by_ob_data p v msg)
