-- ===== src/Insights/Levels/Laws.antt =====
-- What is read from the price levels of domains/insights/price_level.go after each change, and what
-- always holds of them.
use lapuacore.Common.{
  ◌≡◌, refl, ap, ◌∙◌, Bool, false, none, some, if◌then◌else◌, All, arith, Bool-cases, inl, inr,
}
use lapuacore.Domains.Decimal.{Decimal, OrderLaws}
use lapuacore.Domains.Commons.{BookSide, book_side_none, book_side_bid, book_side_ask}
use lapuacore.Insights.Quote.{PriceLevel}
use lapuacore.Insights.Tree.{BTree, BTreeLaws, put_item, drop_item, find_item}
use lapuacore.Insights.Tree.Sorted.{
  IsStrict, same_key, IsSorted, find-put, find-drop, put-IsSorted, drop-IsSorted, All-put, All-drop,
}
use lapuacore.Insights.Levels.{
  PriceLevelMap, price_less, level_less, at_price, new_price_level_map, set_level, get_level,
  drop_level,
}

abbrev pub price_of : {D : Type 0} → PriceLevel D → D
price_of r = r.price

module _ {D : Type 0} ⦃d : Decimal D⦄ where
  abbrev pub same_price : D → D → Bool
  same_price a b = same_key d.less_than a b

  module _ (laws : OrderLaws d) where
    pub price_less-IsStrict : (side : BookSide) → IsStrict {K = D} (price_less side)
    price_less-IsStrict book_side_bid = record {
      lt_irrefl = λ a. laws.greater_than_lem a a ∙ laws.less_irrefl a;
      lt_trans = λ a b c h k. ground (
        arith,
        laws.greater_than_lem a b,
        laws.greater_than_lem b c,
        laws.greater_than_lem a c,
        laws.less_trans c b a,
      );
      eq_of_lt = λ a b h k.
          ground (arith, laws.greater_than_lem a b, laws.greater_than_lem b a, laws.eq_of_less a b);
    }
    price_less-IsStrict book_side_ask = record {
      lt_irrefl = laws.less_irrefl;
      lt_trans = laws.less_trans;
      eq_of_lt = laws.eq_of_less;
    }
    price_less-IsStrict book_side_none = record {
      lt_irrefl = laws.less_irrefl;
      lt_trans = laws.less_trans;
      eq_of_lt = laws.eq_of_less;
    }

    pub same_price-side :
        (side : BookSide) (a c : D) → same_key (price_less side) a c ≡ same_price a c
    same_price-side book_side_bid a c =
        ground (arith, laws.greater_than_lem a c, laws.greater_than_lem c a)
    same_price-side book_side_ask a c = refl
    same_price-side book_side_none a c = refl

module _ {D T : Type 0} ⦃d : Decimal D⦄ (b : BTree (PriceLevel D) T) (tree : BTreeLaws b)
    (laws : OrderLaws d) where
  -- The tree orders the levels of its side from the best price on, each price once, and no level has
  -- the volume zero.
  pub record IsLadder (m : PriceLevelMap D T) : Type 0 where
    pub ordered_by : tree.order m.tree ≡ level_less m.q
    pub sorted : IsSorted (price_less m.q) price_of (b.ascend m.tree)
    pub no_zero : All (λ r. d.is_zero r.volume ≡ false) (b.ascend m.tree)

  pub new-IsLadder : (side : BookSide) (ts : D) → IsLadder (new_price_level_map b side ts)
  unfolding new_price_level_map
  new-IsLadder side ts = record {
    ordered_by = tree.order-new_g (level_less side);
    sorted = rw (tree.ascend-new_g (level_less side)) tt;
    no_zero = rw (tree.ascend-new_g (level_less side)) tt;
  }

  pub get-new_price_level_map :
      (side : BookSide) (ts p : D) → get_level b p (new_price_level_map b side ts) ≡ none
  unfolding get_level new_price_level_map find_item
  get-new_price_level_map side ts p =
      let t = b.new_g (level_less side) in
      tree.get_item_lem (at_price p) t
      ∙ ap (find_item (tree.order t) (at_price p)) (tree.ascend-new_g (level_less side))

  -- `set` and `drop` on the tree alone.
  find-replace :
      (x r : PriceLevel D) (t : T)
      → b.get_item x (b.replace_or_insert r t)
        ≡ find_item (tree.order t) x (put_item (tree.order t) r (b.ascend t))
  find-replace x r t =
      tree.get_item_lem x (b.replace_or_insert r t)
      ∙ ap (λ o. find_item o x (b.ascend (b.replace_or_insert r t))) (tree.order-replace r t)
      ∙ ap (find_item (tree.order t) x) (tree.ascend-replace r t)

  find-delete :
      (x r : PriceLevel D) (t : T)
      → b.get_item x (b.delete_item r t)
        ≡ find_item (tree.order t) x (drop_item (tree.order t) r (b.ascend t))
  find-delete x r t =
      tree.get_item_lem x (b.delete_item r t)
      ∙ ap (λ o. find_item o x (b.ascend (b.delete_item r t))) (tree.order-delete r t)
      ∙ ap (find_item (tree.order t) x) (tree.ascend-delete r t)

  module _ (m : PriceLevelMap D T) (v : IsLadder m) where
    pub read : (q : D) → get_level b q m ≡ find_item (level_less m.q) (at_price q) (b.ascend m.tree)
    unfolding get_level
    read q =
        tree.get_item_lem (at_price q) m.tree
        ∙ ap (λ o. find_item o (at_price q) (b.ascend m.tree)) v.ordered_by

    get_after_replace :
        (q : D) (r : PriceLevel D)
        → b.get_item (at_price q) (b.replace_or_insert r m.tree)
          ≡ (if same_price q r.price then some r else get_level b q m)
    get_after_replace q r =
        find-replace (at_price q) r m.tree
        ∙ ap (λ o. find_item o (at_price q) (put_item o r (b.ascend m.tree))) v.ordered_by
        ∙ find-put (price_less m.q) price_of (price_less-IsStrict laws m.q) (at_price q) r
            (b.ascend m.tree)
        ∙ rw (same_price-side laws m.q q r.price, read q) refl

    get_after_delete :
        (q : D) (r : PriceLevel D)
        → b.get_item (at_price q) (b.delete_item r m.tree)
          ≡ (if same_price q r.price then none else get_level b q m)
    get_after_delete q r =
        find-delete (at_price q) r m.tree
        ∙ ap (λ o. find_item o (at_price q) (drop_item o r (b.ascend m.tree))) v.ordered_by
        ∙ find-drop (price_less m.q) price_of (price_less-IsStrict laws m.q) (at_price q) r
            (b.ascend m.tree) v.sorted
        ∙ rw (same_price-side laws m.q q r.price, read q) refl

    -- A level that is set is read back at its price, and gone where its volume is zero; every other
    -- price reads as before.
    pub get-set_level :
        (q : D) (r : PriceLevel D)
        → get_level b q (set_level b r m) ≡ (
            if same_price q r.price
            then (if d.is_zero r.volume then none else some r)
            else get_level b q m)
    unfolding get_level set_level
    get-set_level q r = elim (Bool-cases (d.is_zero r.volume)) [
      | inl e ↦ rw e (get_after_delete q (at_price r.price))
      | inr e ↦ rw e (get_after_replace q r)
    ]

    pub get-drop_level :
        (q p : D)
        → get_level b q (drop_level b p m) ≡ (if same_price q p then none else get_level b q m)
    unfolding get_level drop_level
    get-drop_level q p = get_after_delete q (at_price p)

    drop-IsLadder : (r : PriceLevel D) → IsLadder (record m { tree = b.delete_item r m.tree })
    drop-IsLadder r = record {
      ordered_by = tree.order-delete r m.tree ∙ v.ordered_by;
      sorted =
          rw (tree.ascend-delete r m.tree, v.ordered_by)
            (drop-IsSorted (price_less m.q) price_of (price_less-IsStrict laws m.q) r
              (b.ascend m.tree) v.sorted);
      no_zero =
          rw (tree.ascend-delete r m.tree, v.ordered_by)
            (All-drop (price_less m.q) price_of (price_less-IsStrict laws m.q)
              (λ x. d.is_zero x.volume ≡ false) r (b.ascend m.tree) v.no_zero);
    }

    pub drop_level-IsLadder : (p : D) → IsLadder (drop_level b p m)
    unfolding drop_level
    drop_level-IsLadder p = drop-IsLadder (at_price p)

    pub set_level-IsLadder : (r : PriceLevel D) → IsLadder (set_level b r m)
    unfolding set_level
    set_level-IsLadder r = elim (Bool-cases (d.is_zero r.volume)) [
      | inl e ↦ rw e (drop-IsLadder (at_price r.price))
      | inr e ↦ rw e (record {
        ordered_by = tree.order-replace r m.tree ∙ v.ordered_by;
        sorted =
            rw (tree.ascend-replace r m.tree, v.ordered_by)
              (put-IsSorted (price_less m.q) price_of (price_less-IsStrict laws m.q) r
                (b.ascend m.tree) v.sorted);
        no_zero =
            rw (tree.ascend-replace r m.tree, v.ordered_by)
              (All-put (price_less m.q) price_of (price_less-IsStrict laws m.q)
                (λ x. d.is_zero x.volume ≡ false) r (b.ascend m.tree) e v.no_zero);
      })
    ]
