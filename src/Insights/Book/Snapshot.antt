-- ===== src/Insights/Book/Snapshot.antt =====
-- What a snapshot does to a side of the book: the loops of `resetBySnapshot` in
-- domains/insights/orderbook_handlers.go.
use lapuacore.Common.{
  ◌≡◌, refl, sym, ap, subst, ◌∙◌, true, false, some, List, [], ◌∷◌, All, arith, Bool-cases, inl,
  inr,
}
use mathlib.Core.Path.{fun_ext}
use lapuacore.Domains.Decimal.{Decimal, OrderLaws}
use lapuacore.Insights.Quote.{PriceLevel}
use lapuacore.Insights.Tree.{BTree, BTreeLaws}
use lapuacore.Insights.Tree.Sorted.{IsSorted}
use lapuacore.Insights.Levels.{
  PriceLevelMap, get_level, set_level, price_less, level_less, range_items, new_price_level_map,
  sorted_range, replace_levels, range_items-nil, range_items-go_on,
}
use lapuacore.Insights.Levels.Laws.{
  IsLadder, price_of, same_price, get-set_level, set_level-IsLadder, new-IsLadder, read,
  get-new_price_level_map,
}
use lapuacore.Insights.Book.{is_newer, set_levels, keep_newer, reset_side}
use lapuacore.Insights.Book.View.{view, set_level-q}
use lapuacore.Insights.Book.Overlay.{
  set_views, no_levels, overlay, newer_view, newer_views, newer_views_lem, reset_view, is_newer_lem,
}

module _ {D T : Type 0} ⦃d : Decimal D⦄ (b : BTree (PriceLevel D) T) (tree : BTreeLaws b)
    (laws : OrderLaws d) where
  view-set_levels :
      (l : List (PriceLevel D)) (m : PriceLevelMap D T)
      → IsLadder b tree laws m
      → view b tree laws (set_levels b l m) ≡ set_views l (view b tree laws m)
  unfolding set_levels
  view-set_levels [] m v = refl
  view-set_levels (a ∷ l) m v =
      view-set_levels l (set_level b a m) (set_level-IsLadder b tree laws m v a)
      ∙ ap (set_views l) (fun_ext (λ p. get-set_level b tree laws m v p a))

  set_levels-IsLadder :
      (l : List (PriceLevel D)) (m : PriceLevelMap D T)
      → IsLadder b tree laws m
      → IsLadder b tree laws (set_levels b l m)
  unfolding set_levels
  set_levels-IsLadder [] m v = v
  set_levels-IsLadder (a ∷ l) m v =
      set_levels-IsLadder l (set_level b a m) (set_level-IsLadder b tree laws m v a)

  set_levels-q : (l : List (PriceLevel D)) (m : PriceLevelMap D T) → (set_levels b l m).q ≡ m.q
  unfolding set_levels
  set_levels-q [] m = refl
  set_levels-q (a ∷ l) m = set_levels-q l (set_level b a m) ∙ set_level-q b tree laws a m

  -- The closure over the items of the old map.
  pub keep_newer-IsLadder :
      (r : PriceLevel D) (f : PriceLevelMap D T)
      → IsLadder b tree laws f
      → IsLadder b tree laws (keep_newer b r f).0
  unfolding keep_newer
  keep_newer-IsLadder r f v = elim (Bool-cases (is_newer (get_level b r.price f) r)) [
    | inl e ↦ rw e (set_level-IsLadder b tree laws f v r)
    | inr e ↦ rw e v
  ]

  keep_newer-go_on : (r : PriceLevel D) (f : PriceLevelMap D T) → (keep_newer b r f).1 ≡ true
  unfolding keep_newer
  keep_newer-go_on r f = ground arith

  keep_newer-q : (r : PriceLevel D) (f : PriceLevelMap D T) → (keep_newer b r f).0.q ≡ f.q
  unfolding keep_newer set_level
  keep_newer-q r f = ground arith

  view-keep_newer_same :
      (r : PriceLevel D) (f : PriceLevelMap D T)
      → IsLadder b tree laws f
      → d.is_zero r.volume ≡ false
      → (p : D) → p ≡ r.price
      → same_price p r.price ≡ true
      → view b tree laws (keep_newer b r f).0 p ≡ overlay (some r) (view b tree laws f p)
  unfolding keep_newer
  view-keep_newer_same r f v z p e h =
      rw (sym (is_newer_lem (get_level b p f) r), ap (λ q. is_newer (get_level b q f) r) e)
        (elim (Bool-cases (is_newer (get_level b r.price f) r)) [
          | inl k ↦ rw k (get-set_level b tree laws f v p r ∙ rw (h, z) refl)
          | inr k ↦ rw k refl
        ])

  view-keep_newer :
      (r : PriceLevel D) (f : PriceLevelMap D T)
      → IsLadder b tree laws f
      → d.is_zero r.volume ≡ false
      → view b tree laws (keep_newer b r f).0 ≡ newer_view r (view b tree laws f)
  unfolding keep_newer
  view-keep_newer r f v z = fun_ext (λ p. elim (Bool-cases (same_price p r.price)) [
    | inl h ↦
        rw h (
          view-keep_newer_same r f v z p (laws.eq_of_less p r.price (ground arith) (ground arith))
            h)
    | inr h ↦ rw h (elim (Bool-cases (is_newer (get_level b r.price f) r)) [
      | inl e ↦ rw e (get-set_level b tree laws f v p r ∙ rw h refl)
      | inr e ↦ rw e refl
    ])
  ])

  keep_all :
      (l : List (PriceLevel D)) (f : PriceLevelMap D T)
      → IsLadder b tree laws f
      → All (λ r. d.is_zero r.volume ≡ false) l
      → view b tree laws (range_items (keep_newer b) l f) ≡ newer_views l (view b tree laws f)
  keep_all [] f v z = rw (range_items-nil (keep_newer b) f) refl
  keep_all (r ∷ l) f v z = rw (range_items-go_on (keep_newer b) r l f (keep_newer-go_on r f)) (
      keep_all l (keep_newer b r f).0 (keep_newer-IsLadder r f v) z.1
      ∙ ap (newer_views l) (view-keep_newer r f v z.0))

  keep_all-IsLadder :
      (l : List (PriceLevel D)) (f : PriceLevelMap D T)
      → IsLadder b tree laws f
      → IsLadder b tree laws (range_items (keep_newer b) l f)
  keep_all-IsLadder [] f v = rw (range_items-nil (keep_newer b) f) v
  keep_all-IsLadder (r ∷ l) f v =
      rw (range_items-go_on (keep_newer b) r l f (keep_newer-go_on r f))
        (keep_all-IsLadder l (keep_newer b r f).0 (keep_newer-IsLadder r f v))

  keep_all-q :
      (l : List (PriceLevel D)) (f : PriceLevelMap D T) → (range_items (keep_newer b) l f).q ≡ f.q
  keep_all-q [] f = rw (range_items-nil (keep_newer b) f) refl
  keep_all-q (r ∷ l) f =
      rw (range_items-go_on (keep_newer b) r l f (keep_newer-go_on r f))
        (keep_all-q l (keep_newer b r f).0 ∙ keep_newer-q r f)

  module _ (m : PriceLevelMap D T) (v : IsLadder b tree laws m) (ts : D) where
    pub reset_side-q : (l : List (PriceLevel D)) → (reset_side b m.q ts l m).q ≡ m.q
    unfolding reset_side replace_levels
    reset_side-q [] = refl
    reset_side-q (a ∷ l) = refl

    fresh : List (PriceLevel D) → PriceLevelMap D T
    fresh l = set_levels b l (new_price_level_map b m.q ts)

    fresh-IsLadder : (l : List (PriceLevel D)) → IsLadder b tree laws (fresh l)
    unfolding fresh
    fresh-IsLadder l =
        set_levels-IsLadder l (new_price_level_map b m.q ts) (new-IsLadder b tree laws m.q ts)

    fresh-q : (l : List (PriceLevel D)) → (fresh l).q ≡ m.q
    unfolding fresh new_price_level_map
    fresh-q l = set_levels-q l (new_price_level_map b m.q ts)

    view-fresh : (l : List (PriceLevel D)) → view b tree laws (fresh l) ≡ set_views l no_levels
    unfolding fresh
    view-fresh l =
        view-set_levels l (new_price_level_map b m.q ts) (new-IsLadder b tree laws m.q ts)
        ∙ ap (set_views l) (fun_ext (get-new_price_level_map b tree laws m.q ts))

    pub reset_side-IsLadder :
        (l : List (PriceLevel D)) → IsLadder b tree laws (reset_side b m.q ts l m)
    unfolding reset_side replace_levels sorted_range fresh
    reset_side-IsLadder [] = v
    reset_side-IsLadder (a ∷ l) =
        let w = keep_all-IsLadder (b.ascend m.tree) (fresh (a ∷ l)) (fresh-IsLadder (a ∷ l)) in
        let q : (range_items (keep_newer b) (b.ascend m.tree) (fresh (a ∷ l))).q ≡ m.q =
          keep_all-q (b.ascend m.tree) (fresh (a ∷ l)) ∙ fresh-q (a ∷ l) in
        record {
          ordered_by = w.ordered_by ∙ ap level_less q;
          sorted =
              subst
                (λ k.
                  IsSorted (price_less k) price_of
                    (b.ascend (range_items (keep_newer b) (b.ascend m.tree) (fresh (a ∷ l))).tree))
                q w.sorted;
          no_zero = w.no_zero;
        }

    pub view-reset_side :
        (l : List (PriceLevel D))
        → view b tree laws (reset_side b m.q ts l m) ≡ reset_view l (view b tree laws m)
    unfolding reset_side replace_levels sorted_range fresh get_level
    view-reset_side [] = refl
    view-reset_side (a ∷ l) =
        keep_all (b.ascend m.tree) (fresh (a ∷ l)) (fresh-IsLadder (a ∷ l)) v.no_zero
        ∙ ap (newer_views (b.ascend m.tree)) (view-fresh (a ∷ l))
        ∙ fun_ext (λ p.
          newer_views_lem laws m.q (b.ascend m.tree) (set_views (a ∷ l) no_levels) p v.sorted
          ∙ ap (λ o. overlay o (set_views (a ∷ l) no_levels p)) (sym (read b tree laws m v p)))
