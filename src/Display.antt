-- ===== src/Display.antt =====
-- pkg/display/book_display.go: order books side by side on a terminal, as the text that `Render`
-- prints. A text is the list of its runes.
pub mod Visible
pub mod Lines
pub mod Rows
pub mod Aligned
mod Examples
use Prim.Native.Char.{code}
use Prim.Native.String
use lapuacore.Common.{
  ℕ, zero, suc, ◌+◌, ◌-◌, ◌/◌, Bool, true, false, not, Option, none, some, List, [], ◌∷◌, ◌++◌, map,
  length, take, drop, get_elem?, String, nat_beq, ltb, if◌then◌else◌,
}
use lapuacore.Domains.Decimal.{Decimal}
use lapuacore.Insights.Quote.{PriceLevel}
use lapuacore.Insights.Tree.{BTree}
use lapuacore.Insights.Book.{OrderBookImpl}
use lapuacore.Insights.Book.Reads.{get_asks, get_bids}

abbrev pub Text : Type 0
Text = List ℕ

abbrev pub runes : String → Text
runes String.[] = []
runes (String.◌∷◌ c s) = code c ∷ runes s

abbrev pub escape : ℕ
escape = 27

abbrev pub space : ℕ
space = 32

abbrev pub new_line : ℕ
new_line = 10

-- Go's `len` of a string: the bytes of its UTF-8.
unfoldable pub rune_size : ℕ → ℕ
rune_size r = if ltb r 128 then 1 else if ltb r 2048 then 2 else if ltb r 65536 then 3 else 4

unfoldable pub byte_len : Text → ℕ
byte_len [] = 0
byte_len (r ∷ s) = rune_size r + byte_len s

-- `strings.Repeat` of one rune.
unfoldable pub repeat : ℕ → ℕ → Text
repeat r zero = []
repeat r (suc n) = r ∷ repeat r n

-- The body of the loop of `visibleLen`, on `visible` and `inEsc`.
unfoldable pub visible_rune : ℕ → ℕ × Bool → ℕ × Bool
visible_rune r (visible, in_esc) =
    if nat_beq r escape
    then (visible, true)
    else if in_esc
    then (visible, not (nat_beq r b'm'))
    else (suc visible, false)

unfoldable pub visible_runes : Text → ℕ × Bool → ℕ × Bool
visible_runes [] st = st
visible_runes (r ∷ s) st = visible_runes s (visible_rune r st)

unfoldable pub visible_len : Text → ℕ
visible_len s = (visible_runes s (0, false)).0

-- The loop for `maxWidth`.
unfoldable pub widest : List Text → ℕ → ℕ
widest [] w = w
widest (line ∷ l) w = widest l (if ltb w (visible_len line) then visible_len line else w)

-- The header and the line of the spread: a text amid `fill`. Where the source has a `padTotal` below
-- zero it takes zero, which is what the difference is here.
unfoldable pub framed : ℕ → Text → ℕ → Text
framed fill text max_width =
    let inner_width = max_width - 2 in
    let pad_total = inner_width - byte_len text in
    let pad_left = pad_total / 2 in
    let pad_right = pad_total - pad_left in
    runes "  " ++ repeat fill pad_left ++ text ++ repeat fill pad_right

unfoldable pub header_text : Text → Text
header_text title = runes " " ++ title ++ runes " "

unfoldable pub waiting_line : Text → Text
waiting_line title = title ++ runes ": waiting for data..."

pub record BookEntry (D T : Type 0) : Type 0 where
  pub title : Text
  pub ob : OrderBookImpl D T

pub record BookDisplay (D T : Type 0) : Type 0 where
  pub depth : ℕ
  pub books : List (BookEntry D T)

-- The lines of a book and its width.
abbrev pub Column : Type 0
Column = List Text × ℕ

-- A book's line in a row, or the empty one.
unfoldable pub cell : ℕ → List Text → Text
cell row lines = elim (get_elem? lines row) [ none ↦ [] | some line ↦ line ]

-- A row: the last column is printed as it is, the others are filled to their widths.
unfoldable pub row_text : ℕ → List Column → Text
row_text row [] = []
row_text row ((lines, width) ∷ []) = cell row lines
row_text row ((lines, width) ∷ c ∷ columns) =
    cell row lines
    ++ repeat space (width - visible_len (cell row lines))
    ++ runes "  "
    ++ row_text row (c ∷ columns)

-- `maxRows`.
unfoldable pub max_rows : List Column → ℕ → ℕ
max_rows [] n = n
max_rows ((lines, width) ∷ columns) n =
    max_rows columns (if ltb n (length lines) then length lines else n)

-- The rows from `row` on, `n` of them.
unfoldable pub print_rows : ℕ → ℕ → List Column → Text
print_rows zero row columns = []
print_rows (suc n) row columns = row_text row columns ++ new_line ∷ print_rows n (suc row) columns

abbrev pub escape_code : String → Text
escape_code s = escape ∷ runes s

-- `b` is the B-tree of the books; `string_fixed` and `to_text` are `StringFixed` and `String` of the
-- decimal numbers.
module _ {D T : Type 0} ⦃d : Decimal D⦄ (b : BTree (PriceLevel D) T) (string_fixed : D → ℕ → Text)
    (to_text : D → Text) where
  unfoldable pub level_line : String → String → PriceLevel D → Text
  level_line colour word r =
      runes "  "
      ++ escape_code colour
      ++ runes word
      ++ string_fixed r.price 2
      ++ runes ": "
      ++ to_text r.volume
      ++ escape_code "[0m"

  unfoldable pub ask_lines : List (PriceLevel D) → List Text
  ask_lines [] = []
  ask_lines (r ∷ asks) = ask_lines asks ++ level_line "[31m" "Ask " r ∷ []

  unfoldable pub bid_lines : List (PriceLevel D) → List Text
  bid_lines [] = []
  bid_lines (r ∷ bids) = level_line "[32m" "Bid " r ∷ bid_lines bids

  unfoldable pub spread_text : PriceLevel D → PriceLevel D → Text
  spread_text best_ask best_bid =
      runes " spread(" ++ string_fixed (d.sub best_ask.price best_bid.price) 2 ++ runes ") "

  -- The part of `buildBookLines` after the test of the best prices.
  unfoldable pub ready_lines : ℕ → Text → OrderBookImpl D T → PriceLevel D → PriceLevel D → Column
  ready_lines depth title ob best_ask best_bid =
      let asks = get_asks b depth ob in
      let data_lines = ask_lines asks ++ bid_lines (get_bids b depth ob) in
      let max_width = widest data_lines 0 in
      (
        framed b'=' (header_text title) max_width ∷ take (length asks) data_lines
            ++ framed b'-' (spread_text best_ask best_bid) max_width ∷ drop (length asks) data_lines
            ++ [] ∷ [],
        max_width,
      )

  -- `buildBookLines`, on the best ask and the best bid.
  unfoldable pub lines_at :
      ℕ → Text → OrderBookImpl D T → Option (PriceLevel D) → Option (PriceLevel D) → Column
  lines_at depth title ob none best_bid = (waiting_line title ∷ [], byte_len (waiting_line title))
  lines_at depth title ob (some best_ask) none =
      (waiting_line title ∷ [], byte_len (waiting_line title))
  lines_at depth title ob (some best_ask) (some best_bid) =
      ready_lines depth title ob best_ask best_bid

  abbrev pub build_book_lines : ℕ → Text → OrderBookImpl D T → Column
  build_book_lines depth title ob = lines_at depth title ob ob.current_best_ask ob.current_best_bid

  unfoldable pub columns_of : ℕ → List (BookEntry D T) → List Column
  columns_of depth [] = []
  columns_of depth (entry ∷ books) =
      build_book_lines depth entry.title entry.ob ∷ columns_of depth books

  unfoldable pub render : BookDisplay D T → Text
  render p =
      let columns = columns_of p.depth p.books in
      escape_code "[2J" ++ escape_code "[H" ++ print_rows (max_rows columns 0) 0 columns
