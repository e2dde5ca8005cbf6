-- ===== src/Insights/Book/Examples.antt =====
-- What the theorems on order books say at concrete values: a tree that is a list with its order.
use lapuacore.Common.{
  ℕ, ◌≡◌, refl, Bool, false, none, List, [], ◌∷◌, length, All, if◌then◌else◌, is_some,
}
use lapuacore.Domains.Commons.{book_side_ask, book_side_bid}
use lapuacore.Deals.Samples.{whole, whole-OrderLaws}
use lapuacore.Insights.Quote.{PriceLevel}
use lapuacore.Insights.Tree.{BTree, BTreeLaws, put_item, drop_item, find_item, first}
use lapuacore.Insights.Levels.{or_empty}
use lapuacore.Insights.Book.{
  OrderBookImpl, OrderBookData, snapshot, delta, new_order_book, update_by_ob_data,
}
use lapuacore.Insights.Book.Reads.{
  calculate_asks_vol_sum_map, calculate_bids_vol_sum_map, book_sum_volume,
}
use lapuacore.Insights.Book.View.{view, kept}
use lapuacore.Insights.Book.Run.{
  IsBook, views, run_book, run_views, run_book_refines, new_order_book-IsBook,
  update_by_ob_data-IsBook,
}
use lapuacore.Insights.Book.Best.{best_is_best}
use lapuacore.Insights.Book.Volumes.{sum_level, vol_sum_maps_agree}

-- A list with its order.
abbrev pub ListTree : Type 0
ListTree = (PriceLevel ℕ → PriceLevel ℕ → Bool) × List (PriceLevel ℕ)

abbrev pub list_tree : BTree (PriceLevel ℕ) ListTree
list_tree = record {
  new_g = λ less. (less, []);
  replace_or_insert = λ x t. (t.0, put_item t.0 x t.1);
  delete_item = λ x t. (t.0, drop_item t.0 x t.1);
  get_item = λ x t. find_item t.0 x t.1;
  min_item = λ t. first t.1;
  len_items = λ t. length t.1;
  ascend = λ t. t.1;
}

list_tree-BTreeLaws : BTreeLaws list_tree
list_tree-BTreeLaws = record {
  order = λ t. t.0;
  order-new_g = λ less. refl;
  order-replace = λ x t. refl;
  order-delete = λ x t. refl;
  ascend-new_g = λ less. refl;
  ascend-replace = λ x t. refl;
  ascend-delete = λ x t. refl;
  get_item_lem = λ x t. refl;
  min_item_lem = λ t. refl;
  len_items_lem = λ t. refl;
}

abbrev pub level : ℕ → ℕ → ℕ → PriceLevel ℕ
level seq_id price volume = record { seq_id = seq_id; price = price; volume = volume }

abbrev opening : OrderBookData ℕ
opening = record {
  data_type = snapshot;
  exec_at = 1;
  arrived_at = 2;
  bids = level 1 99 5 ∷ level 1 98 7 ∷ [];
  asks = level 1 101 4 ∷ level 1 103 6 ∷ [];
  seq_id = 1;
}

-- One level changed, one removed.
abbrev change : OrderBookData ℕ
change = record {
  data_type = delta;
  exec_at = 3;
  arrived_at = 4;
  bids = level 2 99 0 ∷ [];
  asks = level 2 102 8 ∷ [];
  seq_id = 2;
}

abbrev empty_book : OrderBookImpl ℕ ListTree
empty_book = new_order_book list_tree 1 1

empty_book-IsBook : IsBook list_tree list_tree-BTreeLaws whole-OrderLaws empty_book
empty_book-IsBook = new_order_book-IsBook list_tree list_tree-BTreeLaws whole-OrderLaws 1 1

abbrev open_book : OrderBookImpl ℕ ListTree
open_book = update_by_ob_data list_tree opening empty_book

open_book-IsBook : IsBook list_tree list_tree-BTreeLaws whole-OrderLaws open_book
open_book-IsBook =
    update_by_ob_data-IsBook list_tree list_tree-BTreeLaws whole-OrderLaws empty_book
      empty_book-IsBook opening

run_book_refines_example :
    let tree = list_tree-BTreeLaws in
    let laws = whole-OrderLaws in
    views list_tree tree laws (run_book list_tree tree laws (opening ∷ change ∷ []) empty_book)
    ≡ run_views list_tree tree laws (opening ∷ change ∷ []) (views list_tree tree laws empty_book)
run_book_refines_example =
    run_book_refines list_tree list_tree-BTreeLaws whole-OrderLaws (opening ∷ change ∷ [])
      empty_book empty_book-IsBook

best_is_best_example :
    let p' = update_by_ob_data list_tree change open_book in
    All
      (λ r. whole.less_than r.price (or_empty p'.current_best_ask).price ≡ false)
      (list_tree.ascend p'.asks_map.tree)
    × All
        (λ r. whole.greater_than r.price (or_empty p'.current_best_bid).price ≡ false)
        (list_tree.ascend p'.bids_map.tree)
best_is_best_example =
    best_is_best list_tree list_tree-BTreeLaws whole-OrderLaws open_book open_book-IsBook change

-- The ask at 103 is read with the volume of both asks.
vol_sum_maps_agree_example :
    let tree = list_tree-BTreeLaws in
    let laws = whole-OrderLaws in
    (view list_tree tree laws (calculate_asks_vol_sum_map list_tree open_book) 103 ≡ (
      if is_some (view list_tree tree laws open_book.asks_map 103)
      then kept (sum_level 103 (book_sum_volume list_tree book_side_ask 103 open_book))
      else none))
    × (view list_tree tree laws (calculate_bids_vol_sum_map list_tree open_book) 103 ≡ (
        if is_some (view list_tree tree laws open_book.bids_map 103)
        then kept (sum_level 103 (book_sum_volume list_tree book_side_bid 103 open_book))
        else none))
vol_sum_maps_agree_example =
    vol_sum_maps_agree list_tree list_tree-BTreeLaws whole-OrderLaws open_book 103 open_book-IsBook
