-- ===== src/Display/Lines.antt =====
-- The lines of one book, as `buildBookLines` of pkg/display/book_display.go puts them together.
use lapuacore.Common.{
  ℕ, zero, suc, ◌+◌, ◌-◌, ◌/◌, ◌≤◌, ◌≡◌, refl, ap, ◌∙◌, ◌≢◌, List, [], ◌∷◌, ◌++◌, String, length,
  length-append, take, drop, All, All-append, arith,
}
use lapuacore.Domains.Decimal.{Decimal}
use lapuacore.Insights.Quote.{PriceLevel}
use lapuacore.Insights.Tree.{BTree}
use lapuacore.Insights.Book.{OrderBookImpl}
use lapuacore.Insights.Book.Reads.{get_asks, get_bids}
use lapuacore.Display.{
  Text, runes, escape_code, byte_len, visible_len, widest, framed, header_text, level_line,
  ask_lines, bid_lines, spread_text, ready_lines,
}
use lapuacore.Display.Visible.{
  Shows, IsPlain, is_plain-IsPlain, ◌⊕◌, Shows-visible_len, plain_text, repeat_text,
  length-byte_len, red_text, green_text, reset_text,
}

-- The text ends outside an escape sequence, and no more than `w` runes of it are to be seen.
abbrev pub Fits : ℕ → Text → Type 0
Fits w s = (n : ℕ) × Shows s n × (n ≤ w)

widest_above : (l : List Text) (w : ℕ) → w ≤ widest l w
unfolding widest
widest_above [] w = omega arith
widest_above (line ∷ l) w = ground (arith, widest_above l w, widest_above l (visible_len line))

pub widest-all : (l : List Text) (w : ℕ) → All (λ s. visible_len s ≤ widest l w) l
unfolding widest
widest-all [] w = tt
widest-all (line ∷ l) w =
    (ground (arith, widest_above l w, widest_above l (visible_len line)), widest-all l _)

half : (n : ℕ) → (n / 2) ≤ n
half n = omega arith

-- The header and the spread's line are as wide as the data, less the bytes that are not to be seen.
pub framed-Fits :
    (fill : ℕ) (text : Text) (w : ℕ)
    → fill ≢ 27
    → IsPlain text
    → 2 + byte_len text ≤ w
    → Fits w (framed fill text w)
unfolding framed
framed-Fits fill text w p t room =
    let pad = (w - 2) - byte_len text in
    (
      length (runes "  ") + pad / 2 + length text + (pad - pad / 2),
      plain_text (runes "  ") (is_plain-IsPlain (runes "  ") refl)
          ⊕ repeat_text fill (pad / 2) p
          ⊕ plain_text text t
          ⊕ repeat_text fill (pad - pad / 2) p,
      omega (arith, length-byte_len text, half pad, room),
    )

take-append : {A : Type 0} (l m : List A) (n : ℕ) → length l ≡ n → take n (l ++ m) ≡ l
take-append [] m zero e = refl
take-append [] m (suc n) e = absurd (omega (arith, e))
take-append (x ∷ l) m zero e = absurd (omega (arith, e))
take-append (x ∷ l) m (suc n) e = ap (λ k. x ∷ k) (take-append l m n (omega (arith, e)))

drop-append : {A : Type 0} (l m : List A) (n : ℕ) → length l ≡ n → drop n (l ++ m) ≡ m
drop-append [] m zero e = refl
drop-append [] m (suc n) e = absurd (omega (arith, e))
drop-append (x ∷ l) m zero e = absurd (omega (arith, e))
drop-append (x ∷ l) m (suc n) e = drop-append l m n (omega (arith, e))

abbrev pub IsShown : Text → Type 0
IsShown s = (n : ℕ) × Shows s n

pub shown-Fits :
    (w : ℕ) (l : List Text) → All IsShown l → All (λ s. visible_len s ≤ w) l → All (Fits w) l
shown-Fits w [] h m = tt
shown-Fits w (s ∷ l) h m =
    ((h.0.0, h.0.1, omega (arith, m.0, Shows-visible_len s h.0.0 h.0.1)), shown-Fits w l h.1 m.1)

pub IsPlain-append : (s t : Text) → IsPlain s → IsPlain t → IsPlain (s ++ t)
IsPlain-append s t = All-append _ s t

pub header_text-IsPlain : (title : Text) → IsPlain title → IsPlain (header_text title)
unfolding header_text
header_text-IsPlain title plain =
    let blank = is_plain-IsPlain (runes " ") refl in
    IsPlain-append (runes " " ++ title) (runes " ") (IsPlain-append (runes " ") title blank plain)
      blank

-- The lines of the data, above the spread and below it.
pub data-Fits :
    (w : ℕ) (above below : List Text)
    → All IsShown above
    → All IsShown below
    → All (λ s. visible_len s ≤ w) (above ++ below)
    → All (Fits w) above × All (Fits w) below
data-Fits w [] below a z m = (tt, shown-Fits w below z m)
data-Fits w (s ∷ above) below a z m =
    let (asks_in, bids_in) = data-Fits w above below a.1 z m.1 in
    (((shown-Fits w (s ∷ []) (a.0, tt) (m.0, tt)).0, asks_in), bids_in)

module _ {D T : Type 0} ⦃d : Decimal D⦄ (b : BTree (PriceLevel D) T) (string_fixed : D → ℕ → Text)
    (to_text : D → Text) where
  length-ask_lines :
      (asks : List (PriceLevel D)) → length (ask_lines b string_fixed to_text asks) ≡ length asks
  unfolding ask_lines
  length-ask_lines [] = refl
  length-ask_lines (r ∷ asks) =
      length-append (ask_lines b string_fixed to_text asks) _ ∙ omega (arith, length-ask_lines asks)

  -- A book with prices: the header, the asks from the worst to the best, the spread, the bids from
  -- the best to the worst, and an empty line.
  pub ready_lines_lem :
      (depth : ℕ) (title : Text) (ob : OrderBookImpl D T) (best_ask best_bid : PriceLevel D)
      → let asks = ask_lines b string_fixed to_text (get_asks b depth ob) in
        let bids = bid_lines b string_fixed to_text (get_bids b depth ob) in
        let width = widest (asks ++ bids) 0 in
        ready_lines b string_fixed to_text depth title ob best_ask best_bid ≡ (
          framed b'=' (header_text title) width ∷ asks
              ++ framed b'-' (spread_text b string_fixed to_text best_ask best_bid) width ∷ bids
              ++ [] ∷ [],
          width,
        )
  unfolding ready_lines
  ready_lines_lem depth title ob best_ask best_bid =
      let asks = get_asks b depth ob in
      let above = ask_lines b string_fixed to_text asks in
      let below = bid_lines b string_fixed to_text (get_bids b depth ob) in
      rw
        (
          take-append above below (length asks) (length-ask_lines asks),
          drop-append above below (length asks) (length-ask_lines asks),
        )
        refl

  module _ (plain_fixed : (a : D) (n : ℕ) → IsPlain (string_fixed a n))
      (plain_number : (a : D) → IsPlain (to_text a)) where
    level_text :
        (colour word : String) (r : PriceLevel D)
        → Shows (escape_code colour) 0
        → IsPlain (runes word)
        → IsShown (level_line b string_fixed to_text colour word r)
    unfolding level_line
    level_text colour word r c p = (
      _,
      plain_text (runes "  ") (is_plain-IsPlain (runes "  ") refl)
          ⊕ c
          ⊕ plain_text (runes word) p
          ⊕ plain_text (string_fixed r.price 2) (plain_fixed r.price 2)
          ⊕ plain_text (runes ": ") (is_plain-IsPlain (runes ": ") refl)
          ⊕ plain_text (to_text r.volume) (plain_number r.volume)
          ⊕ reset_text,
    )

    pub ask_lines-IsShown :
        (asks : List (PriceLevel D)) → All IsShown (ask_lines b string_fixed to_text asks)
    unfolding ask_lines
    ask_lines-IsShown [] = tt
    ask_lines-IsShown (r ∷ asks) =
        All-append IsShown (ask_lines b string_fixed to_text asks) _ (ask_lines-IsShown asks)
          (level_text "[31m" "Ask " r red_text (is_plain-IsPlain (runes "Ask ") refl), tt)

    pub bid_lines-IsShown :
        (bids : List (PriceLevel D)) → All IsShown (bid_lines b string_fixed to_text bids)
    unfolding bid_lines
    bid_lines-IsShown [] = tt
    bid_lines-IsShown (r ∷ bids) = (
      level_text "[32m" "Bid " r green_text (is_plain-IsPlain (runes "Bid ") refl),
      bid_lines-IsShown bids,
    )
