-- ===== src/Display/Examples.antt =====
-- Two books of pkg/display/book_display.go side by side, the second one without prices.
use lapuacore.Common.{ℕ, ◌+◌, ◌/◌, ◌-◌, ◌%◌, ◌≡◌, ◌≢◌, refl, some, [], ◌∷◌, ◌++◌, arith}
use lapuacore.Deals.Samples.{whole}
use lapuacore.Insights.Book.{OrderBookImpl, new_order_book}
use lapuacore.Insights.Book.Examples.{ListTree, list_tree, level}
use lapuacore.Display.{
  Text, runes, escape_code, visible_len, visible_runes, visible_rune, BookEntry, row_text,
  columns_of, lines_at, ready_lines, framed, header_text, waiting_line, spread_text, byte_len,
  rune_size, repeat, widest, cell, ask_lines, bid_lines, level_line, escape,
}
use lapuacore.Insights.Book.Reads.{get_asks, get_bids, collect_level}
use lapuacore.Insights.Levels.{sorted_range, range_items}
use lapuacore.Display.Visible.{IsPlain, is_plain-IsPlain}
use lapuacore.Display.Rows.{width_of}
use lapuacore.Display.Aligned.{HasRoom, columns-aligned}

abbrev digit : ℕ → ℕ
digit n = 48 + n % 10

-- Numbers with four digits.
abbrev digits : ℕ → Text
digits n = digit (n / 1000) ∷ digit (n / 100) ∷ digit (n / 10) ∷ digit n ∷ []

abbrev fixed : ℕ → ℕ → Text
fixed n places = digits n

no_escape : (n : ℕ) → digit n ≢ escape
no_escape n e = omega (arith, e)

digit_size : (n : ℕ) → rune_size (digit n) ≡ 1
unfolding rune_size
digit_size n = ground arith

digits-IsPlain : (n : ℕ) → IsPlain (digits n)
digits-IsPlain n =
    (no_escape (n / 1000), (no_escape (n / 100), (no_escape (n / 10), (no_escape n, tt))))

abbrev open_book : OrderBookImpl ℕ ListTree
open_book =
    let empty = new_order_book list_tree 1 1 in
    record empty {
      bids_map = record empty.bids_map {
        tree = (empty.bids_map.tree.0, level 1 99 5 ∷ level 1 98 7 ∷ []);
      };
      asks_map = record empty.asks_map {
        tree = (empty.asks_map.tree.0, level 1 101 4 ∷ level 1 103 6 ∷ []);
      };
      current_best_ask = some (level 1 101 4);
      current_best_bid = some (level 1 99 5);
    }

abbrev btc : BookEntry ℕ ListTree
btc = record { title = runes "BTC"; ob = open_book }

abbrev eth : BookEntry ℕ ListTree
eth = record { title = runes "ETH"; ob = new_order_book list_tree 1 1 }

seen_plain : visible_len (runes "hello") ≡ 5
unfolding visible_len visible_runes visible_rune
seen_plain = refl

seen_red : visible_len (escape_code "[31mhello" ++ escape_code "[0m") ≡ 5
unfolding visible_len visible_runes visible_rune
seen_red = refl

btc-HasRoom : HasRoom list_tree fixed digits 1 btc
unfolding row_text columns_of lines_at ready_lines framed header_text waiting_line spread_text
    byte_len rune_size repeat visible_len visible_runes visible_rune widest cell ask_lines bid_lines
    level_line get_asks get_bids sorted_range collect_level range_items
btc-HasRoom = record {
  plain_title = is_plain-IsPlain (runes "BTC") refl;
  room = λ best_ask best_bid e f.
      let n = best_ask.price - best_bid.price in
      (
        omega arith,
        omega
            (arith, digit_size (n / 1000), digit_size (n / 100), digit_size (n / 10), digit_size n),
      );
}

first_row :
    row_text 0 (columns_of list_tree fixed digits 1 (btc ∷ eth ∷ []))
    ≡ runes "  ==== BTC =====  ETH: waiting for data..."
unfolding row_text columns_of lines_at ready_lines framed header_text waiting_line spread_text
    byte_len rune_size repeat visible_len visible_runes visible_rune widest cell ask_lines bid_lines
    level_line get_asks get_bids sorted_range collect_level range_items new_order_book
first_row = refl

columns-aligned_example :
    let columns = columns_of list_tree fixed digits 1 in
    (prefix : Text) × (row_text 2 (columns (btc ∷ eth ∷ []))
      ≡ prefix ++ row_text 2 (columns (eth ∷ [])))
    × (visible_len prefix ≡ width_of (columns (btc ∷ [])))
columns-aligned_example =
    columns-aligned list_tree fixed digits (λ a n. digits-IsPlain a) digits-IsPlain 2 1 (btc ∷ [])
      eth [] (btc-HasRoom, tt)
