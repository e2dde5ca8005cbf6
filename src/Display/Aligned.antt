-- ===== src/Display/Aligned.antt =====
-- Where the columns of pkg/display/book_display.go begin on the screen.
use lapuacore.Common.{
  ℕ, ◌+◌, ◌≤◌, ◌≡◌, refl, sym, ap, ◌∙◌, subst, inl, inr, Option-cases, none, some, List, [], ◌∷◌,
  ◌++◌, All, All-append, arith,
}
use lapuacore.Domains.Decimal.{Decimal}
use lapuacore.Insights.Quote.{PriceLevel}
use lapuacore.Insights.Tree.{BTree}
use lapuacore.Insights.Book.{OrderBookImpl}
use lapuacore.Insights.Book.Reads.{get_asks, get_bids}
use lapuacore.Display.{
  Text, runes, byte_len, visible_len, widest, header_text, waiting_line, BookEntry, row_text,
  ask_lines, bid_lines, spread_text, ready_lines, lines_at, build_book_lines, columns_of,
}
use lapuacore.Display.Visible.{
  IsPlain, is_plain-IsPlain, Shows-nil, Shows-visible_len, plain_text, length-byte_len,
}
use lapuacore.Display.Lines.{
  IsPlain-append, header_text-IsPlain, data-Fits, Fits, widest-all, framed-Fits, ready_lines_lem,
  ask_lines-IsShown, bid_lines-IsShown,
}
use lapuacore.Display.Rows.{width_of, HoldsLines, row_text-aligned}

module _ {D T : Type 0} ⦃d : Decimal D⦄ (b : BTree (PriceLevel D) T) (string_fixed : D → ℕ → Text)
    (to_text : D → Text) where
  -- The title is plain. Where there are prices, the header and the spread are no wider than the data.
  pub record HasRoom (depth : ℕ) (entry : BookEntry D T) : Type 0 where
    pub plain_title : IsPlain entry.title
    pub room :
        (best_ask best_bid : PriceLevel D)
        → entry.ob.current_best_ask ≡ some best_ask
        → entry.ob.current_best_bid ≡ some best_bid
        → let c = build_book_lines b string_fixed to_text depth entry.title entry.ob in
          (2 + byte_len (header_text entry.title) ≤ c.1)
          × (2 + byte_len (spread_text b string_fixed to_text best_ask best_bid) ≤ c.1)

  without_ask :
      (depth : ℕ) (entry : BookEntry D T)
      → entry.ob.current_best_ask ≡ none
      → build_book_lines b string_fixed to_text depth entry.title entry.ob
        ≡ (waiting_line entry.title ∷ [], byte_len (waiting_line entry.title))
  unfolding lines_at
  without_ask depth entry e =
      ap
        (λ x.
          lines_at b string_fixed to_text depth entry.title entry.ob x entry.ob.current_best_bid)
        e

  without_bid :
      (depth : ℕ) (entry : BookEntry D T) (best_ask : PriceLevel D)
      → entry.ob.current_best_ask ≡ some best_ask
      → entry.ob.current_best_bid ≡ none
      → build_book_lines b string_fixed to_text depth entry.title entry.ob
        ≡ (waiting_line entry.title ∷ [], byte_len (waiting_line entry.title))
  unfolding lines_at
  without_bid depth entry best_ask e f =
      ap
        (λ x.
          lines_at b string_fixed to_text depth entry.title entry.ob x entry.ob.current_best_bid)
        e
      ∙ ap (lines_at b string_fixed to_text depth entry.title entry.ob (some best_ask)) f

  with_prices :
      (depth : ℕ) (entry : BookEntry D T) (best_ask best_bid : PriceLevel D)
      → entry.ob.current_best_ask ≡ some best_ask
      → entry.ob.current_best_bid ≡ some best_bid
      → build_book_lines b string_fixed to_text depth entry.title entry.ob
        ≡ ready_lines b string_fixed to_text depth entry.title entry.ob best_ask best_bid
  unfolding lines_at
  with_prices depth entry best_ask best_bid e f =
      ap
        (λ x.
          lines_at b string_fixed to_text depth entry.title entry.ob x entry.ob.current_best_bid)
        e
      ∙ ap (lines_at b string_fixed to_text depth entry.title entry.ob (some best_ask)) f

  module _ (plain_fixed : (a : D) (n : ℕ) → IsPlain (string_fixed a n))
      (plain_number : (a : D) → IsPlain (to_text a)) where
    spread_text-IsPlain :
        (best_ask best_bid : PriceLevel D)
        → IsPlain (spread_text b string_fixed to_text best_ask best_bid)
    unfolding spread_text
    spread_text-IsPlain best_ask best_bid =
        IsPlain-append (runes " spread(" ++ string_fixed _ 2) (runes ") ")
          (IsPlain-append (runes " spread(") (string_fixed _ 2)
            (is_plain-IsPlain (runes " spread(") refl)
            (plain_fixed (d.sub best_ask.price best_bid.price) 2))
          (is_plain-IsPlain (runes ") ") refl)

    ready-HoldsLines :
        (depth : ℕ) (title : Text) (ob : OrderBookImpl D T) (best_ask best_bid : PriceLevel D)
        → let c = ready_lines b string_fixed to_text depth title ob best_ask best_bid in
          IsPlain title
          → 2 + byte_len (header_text title) ≤ c.1
          → 2 + byte_len (spread_text b string_fixed to_text best_ask best_bid) ≤ c.1
          → HoldsLines c
    ready-HoldsLines depth title ob best_ask best_bid plain first second =
        let above = ask_lines b string_fixed to_text (get_asks b depth ob) in
        let below = bid_lines b string_fixed to_text (get_bids b depth ob) in
        let w = widest (above ++ below) 0 in
        let e = ready_lines_lem b string_fixed to_text depth title ob best_ask best_bid in
        let asks =
          ask_lines-IsShown b string_fixed to_text plain_fixed plain_number (get_asks b depth ob) in
        let bids =
          bid_lines-IsShown b string_fixed to_text plain_fixed plain_number (get_bids b depth ob) in
        let (asks_in, bids_in) =
          data-Fits w above below asks bids (widest-all (above ++ below) 0) in
        let header =
          framed-Fits b'=' (header_text title) w (λ c. omega (arith, c))
            (header_text-IsPlain title plain)
            (subst (λ c. 2 + byte_len (header_text title) ≤ c.1) e first) in
        let spread =
          framed-Fits b'-' (spread_text b string_fixed to_text best_ask best_bid) w
            (λ c. omega (arith, c)) (spread_text-IsPlain best_ask best_bid)
            (subst (λ c. 2 + byte_len (spread_text b string_fixed to_text best_ask best_bid) ≤ c.1)
              e second) in
        subst HoldsLines (sym e) (
          All-append (Fits w) (_ ∷ above ++ _ ∷ below) ([] ∷ [])
            (All-append (Fits w) (_ ∷ above) (_ ∷ below) (header, asks_in) (spread, bids_in))
            ((0, Shows-nil, omega arith), tt))

    waiting-HoldsLines :
        (title : Text)
        → IsPlain title
        → HoldsLines (waiting_line title ∷ [], byte_len (waiting_line title))
    unfolding waiting_line
    waiting-HoldsLines title plain =
        let line =
          IsPlain-append title _ plain (is_plain-IsPlain (runes ": waiting for data...") refl) in
        ((_, plain_text (waiting_line title) line, length-byte_len (waiting_line title)), tt)

    entry-HoldsLines :
        (depth : ℕ) (entry : BookEntry D T)
        → HasRoom depth entry
        → HoldsLines (build_book_lines b string_fixed to_text depth entry.title entry.ob)
    entry-HoldsLines depth entry h = elim (Option-cases entry.ob.current_best_ask) [
      | inl e ↦
          subst HoldsLines (sym (without_ask depth entry e))
            (waiting-HoldsLines entry.title h.plain_title)
      | inr (x, e) ↦ elim (Option-cases entry.ob.current_best_bid) [
        | inl f ↦
            subst HoldsLines (sym (without_bid depth entry x e f))
              (waiting-HoldsLines entry.title h.plain_title)
        | inr (y, f) ↦
            let (first, second) = h.room x y e f in
            let same = with_prices depth entry x y e f in
            subst HoldsLines (sym same) (
              ready-HoldsLines depth entry.title entry.ob x y h.plain_title
                (subst (λ c. 2 + byte_len (header_text entry.title) ≤ c.1) same first)
                (subst (λ c. 2 + byte_len (spread_text b string_fixed to_text x y) ≤ c.1) same
                  second))
      ]
    ]

    columns-HoldsLines :
        (depth : ℕ) (books : List (BookEntry D T))
        → All (HasRoom depth) books
        → All HoldsLines (columns_of b string_fixed to_text depth books)
    unfolding columns_of
    columns-HoldsLines depth [] h = tt
    columns-HoldsLines depth (entry ∷ books) h =
        (entry-HoldsLines depth entry h.0, columns-HoldsLines depth books h.1)

    columns_of-append :
        (depth : ℕ) (books more : List (BookEntry D T))
        → columns_of b string_fixed to_text depth (books ++ more)
          ≡ columns_of b string_fixed to_text depth books
            ++ columns_of b string_fixed to_text depth more
    unfolding columns_of
    columns_of-append depth [] more = refl
    columns_of-append depth (entry ∷ books) more =
        ap (λ c. build_book_lines b string_fixed to_text depth entry.title entry.ob ∷ c)
          (columns_of-append depth books more)

    -- The numbers are formatted without escapes. Where the titles of the books before an entry are plain and
    -- their headers and spreads no wider than their data, the entry's column begins at the same visible
    -- place in every row: after the widths of the columns before it, and two spaces for each.
    pub columns-aligned :
        (row depth : ℕ) (before : List (BookEntry D T)) (entry : BookEntry D T)
        (after : List (BookEntry D T))
        → All (HasRoom depth) before
        → let columns = columns_of b string_fixed to_text depth in
          (prefix : Text) × (row_text row (columns (before ++ entry ∷ after))
            ≡ prefix ++ row_text row (columns (entry ∷ after)))
          × (visible_len prefix ≡ width_of (columns before))
    unfolding columns_of
    columns-aligned row depth before entry after h =
        let (prefix, text, shown) =
          row_text-aligned row (columns_of b string_fixed to_text depth before)
            (build_book_lines b string_fixed to_text depth entry.title entry.ob)
            (columns_of b string_fixed to_text depth after) (columns-HoldsLines depth before h) in
        (
          prefix,
          ap (row_text row) (columns_of-append depth before (entry ∷ after)) ∙ text,
          Shows-visible_len prefix _ shown,
        )
