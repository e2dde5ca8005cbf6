-- ===== src/Insights/Book/Overlay.antt =====
-- The levels that a snapshot leaves, by price: what the loops of `resetBySnapshot` in
-- domains/insights/orderbook_handlers.go come to.
use lapuacore.Common.{
  ◌≡◌, refl, ltb, Bool, sym, ◌∙◌, false, Option, none, some, List, [], ◌∷◌, if◌then◌else◌, arith,
  Bool-cases, inl, inr,
}
use lapuacore.Domains.Commons.{BookSide}
use lapuacore.Domains.Decimal.{Decimal, OrderLaws}
use lapuacore.Insights.Quote.{PriceLevel}
use lapuacore.Insights.Tree.{find_item}
use lapuacore.Insights.Tree.Sorted.{IsSorted, find_below}
use lapuacore.Insights.Levels.{is_old, price_less, level_less, at_price}
use lapuacore.Insights.Levels.Laws.{price_of, same_price, same_price-side, price_less-IsStrict}
use lapuacore.Insights.Book.{is_newer}
use lapuacore.Insights.Book.View.{View, kept}

module _ {D : Type 0} ⦃d : Decimal D⦄ where
  -- The levels of a snapshot: the last one of each price stands.
  abbrev pub set_view : PriceLevel D → View D → View D
  set_view a f p = if same_price p a.price then kept a else f p

  abbrev pub set_views : List (PriceLevel D) → View D → View D
  set_views [] f = f
  set_views (a ∷ l) f = set_views l (set_view a f)

  abbrev pub no_levels : View D
  no_levels p = none

  -- A level of the book stays where the snapshot has one with a smaller sequence ID at its price.
  abbrev pub stays : Option (PriceLevel D) → PriceLevel D → Bool
  stays none r = false
  stays (some sr) r = ltb sr.seq_id r.seq_id

  pub is_newer_lem : (o : Option (PriceLevel D)) (r : PriceLevel D) → is_newer o r ≡ stays o r
  unfolding is_old
  is_newer_lem none r = refl
  is_newer_lem (some sr) r = refl

  abbrev pub overlay : Option (PriceLevel D) → Option (PriceLevel D) → Option (PriceLevel D)
  overlay none s = s
  overlay (some r) s = if stays s r then some r else s

  abbrev pub newer_view : PriceLevel D → View D → View D
  newer_view r f p = if same_price p r.price then overlay (some r) (f p) else f p

  abbrev pub newer_views : List (PriceLevel D) → View D → View D
  newer_views [] f = f
  newer_views (r ∷ l) f = newer_views l (newer_view r f)

  pub newer_views_lem :
      (laws : OrderLaws d) (side : BookSide) (l : List (PriceLevel D)) (f : View D) (p : D)
      → IsSorted (price_less side) price_of l
      → newer_views l f p ≡ overlay (find_item (level_less side) (at_price p) l) (f p)
  unfolding find_item
  newer_views_lem laws side [] f p o = refl
  newer_views_lem laws side (r ∷ l) f p o =
      let s = price_less-IsStrict laws side in
      let gone : price_less side r.price p ≡ false
          → find_item (level_less side) (at_price p) l ≡ none =
        λ h. find_below (price_less side) price_of s (at_price p) r.price l h o.0 in
      let same = same_price-side laws side p r.price in
      newer_views_lem laws side l (newer_view r f) p o.1
      ∙ elim (Bool-cases (price_less side p r.price)) [
        | inl e ↦
            let n : price_less side r.price p ≡ false =
              ground (arith, s.lt_trans p r.price p, s.lt_irrefl p) in
            rw (sym same, e, gone n) refl
        | inr e ↦ elim (Bool-cases (price_less side r.price p)) [
          | inl k ↦ rw (sym same, e, k) refl
          | inr k ↦ rw (sym same, e, k, gone k) refl
        ]
      ]

  -- The levels that the snapshot leaves on a side: its own, and those of the book that are newer than
  -- the snapshot's at the same price. A snapshot without levels for the side changes nothing.
  abbrev pub reset_view : List (PriceLevel D) → View D → View D
  reset_view [] f = f
  reset_view (a ∷ l) f = λ p. overlay (f p) (set_views (a ∷ l) no_levels p)
