-- ===== src/Insights/Book/View.antt =====
-- A book as a strategy sees it: the level at each price. What the loops of `updateByDelta` in
-- domains/insights/orderbook_handlers.go do to it.
use lapuacore.Common.{
  ◌≡◌, refl, sym, ltb, Bool, ap, ◌∙◌, true, false, not, ◌&&◌, Option, none, some, List, [], ◌∷◌,
  if◌then◌else◌, arith, Bool-cases, inl, inr,
}
use mathlib.Core.Path.{fun_ext}
use lapuacore.Domains.Decimal.{Decimal, OrderLaws}
use lapuacore.Insights.Quote.{PriceLevel}
use lapuacore.Insights.Tree.{BTree, BTreeLaws}
use lapuacore.Insights.Levels.{is_old, PriceLevelMap, get_level, set_level, drop_level}
use lapuacore.Insights.Levels.Laws.{
  IsLadder, same_price, get-set_level, get-drop_level, set_level-IsLadder, drop_level-IsLadder,
}
use lapuacore.Insights.Book.{is_stale, delta_level, delta_levels}

abbrev pub View : Type 0 → Type 0
View D = D → Option (PriceLevel D)

module _ {D : Type 0} ⦃d : Decimal D⦄ where
  -- What a level of a message leaves at its price.
  abbrev pub kept : PriceLevel D → Option (PriceLevel D)
  kept a = if d.is_zero a.volume then none else some a

  -- A message's level is taken where there is no level yet, or one with a smaller sequence ID.
  abbrev pub is_taken : Option (PriceLevel D) → PriceLevel D → Bool
  is_taken none a = true
  is_taken (some r) a = ltb r.seq_id a.seq_id

  is_taken_lem : (o : Option (PriceLevel D)) (a : PriceLevel D) → is_taken o a ≡ not (is_stale o a)
  unfolding is_old
  is_taken_lem none a = refl
  is_taken_lem (some r) a = ground arith

  abbrev pub delta_view : PriceLevel D → View D → View D
  delta_view a f p = if same_price p a.price && is_taken (f p) a then kept a else f p

  -- The same by the test of the code.
  abbrev fresh_view : PriceLevel D → View D → View D
  fresh_view a f p = if same_price p a.price && not (is_stale (f p) a) then kept a else f p

  fresh_view_lem : (a : PriceLevel D) (f : View D) → fresh_view a f ≡ delta_view a f
  fresh_view_lem a f = fun_ext (λ p.
      ap (λ t. if same_price p a.price && t then kept a else f p) (sym (is_taken_lem (f p) a)))

  abbrev pub delta_views : List (PriceLevel D) → View D → View D
  delta_views [] f = f
  delta_views (a ∷ l) f = delta_views l (delta_view a f)

module _ {D T : Type 0} ⦃d : Decimal D⦄ (b : BTree (PriceLevel D) T) (tree : BTreeLaws b)
    (laws : OrderLaws d) where
  abbrev pub view : PriceLevelMap D T → View D
  view m p = get_level b p m

  pub set_level-q : (r : PriceLevel D) (m : PriceLevelMap D T) → (set_level b r m).q ≡ m.q
  unfolding set_level
  set_level-q r m = ground arith

  delta_level-q : (r : PriceLevel D) (m : PriceLevelMap D T) → (delta_level b r m).q ≡ m.q
  unfolding delta_level set_level drop_level
  delta_level-q r m = ground arith

  module _ (a : PriceLevel D) (m : PriceLevelMap D T) (v : IsLadder b tree laws m) where
    pub delta_level-IsLadder : IsLadder b tree laws (delta_level b a m)
    unfolding delta_level
    delta_level-IsLadder = elim (Bool-cases (is_stale (get_level b a.price m) a)) [
      | inl e ↦ rw e v
      | inr e ↦ elim (Bool-cases (d.is_zero a.volume)) [
        | inl z ↦ rw (e, z) (drop_level-IsLadder b tree laws m v a.price)
        | inr z ↦ rw (e, z) (set_level-IsLadder b tree laws m v a)
      ]
    ]

    -- At the level's own price, and elsewhere.
    view-same :
        (p : D)
        → p ≡ a.price
        → same_price p a.price ≡ true
        → view (delta_level b a m) p ≡ fresh_view a (view m) p
    unfolding delta_level
    view-same p e h =
        rw (ap (λ q. is_stale (get_level b q m) a) e, h)
          (elim (Bool-cases (is_stale (get_level b a.price m) a)) [
            | inl s ↦ rw s refl
            | inr s ↦ elim (Bool-cases (d.is_zero a.volume)) [
              | inl z ↦ rw (s, z) (get-drop_level b tree laws m v p a.price ∙ rw h refl)
              | inr z ↦ rw (s, z) (get-set_level b tree laws m v p a ∙ rw (h, z) refl)
            ]
          ])

    view-other :
        (p : D)
        → same_price p a.price ≡ false
        → view (delta_level b a m) p ≡ fresh_view a (view m) p
    unfolding delta_level
    view-other p h = rw h (elim (Bool-cases (is_stale (get_level b a.price m) a)) [
      | inl s ↦ rw s refl
      | inr s ↦ elim (Bool-cases (d.is_zero a.volume)) [
        | inl z ↦ rw (s, z) (get-drop_level b tree laws m v p a.price ∙ rw h refl)
        | inr z ↦ rw (s, z) (get-set_level b tree laws m v p a ∙ rw h refl)
      ]
    ])

    view-delta_level : view (delta_level b a m) ≡ delta_view a (view m)
    view-delta_level =
        fun_ext (λ p. elim (Bool-cases (same_price p a.price)) [
          | inl h ↦ view-same p (laws.eq_of_less p a.price (ground arith) (ground arith)) h
          | inr h ↦ view-other p h
        ])
        ∙ fresh_view_lem a (view m)

  -- The levels of a message one after the other, on a ladder: still a ladder.
  pub delta_levels-IsLadder :
      (l : List (PriceLevel D)) (m : PriceLevelMap D T)
      → IsLadder b tree laws m
      → IsLadder b tree laws (delta_levels b l m)
  unfolding delta_levels
  delta_levels-IsLadder [] m v = v
  delta_levels-IsLadder (a ∷ l) m v =
      delta_levels-IsLadder l (delta_level b a m) (delta_level-IsLadder a m v)

  -- The book after the levels of a delta message, as a strategy reads it, is the book before with each
  -- level in turn in the place of the one at its price, unless that one is as new.
  pub view-delta_levels :
      (l : List (PriceLevel D)) (m : PriceLevelMap D T)
      → IsLadder b tree laws m
      → view (delta_levels b l m) ≡ delta_views l (view m)
  unfolding delta_levels
  view-delta_levels [] m v = refl
  view-delta_levels (a ∷ l) m v =
      view-delta_levels l (delta_level b a m) (delta_level-IsLadder a m v)
      ∙ ap (delta_views l) (view-delta_level a m v)

  pub delta_levels-q :
      (l : List (PriceLevel D)) (m : PriceLevelMap D T) → (delta_levels b l m).q ≡ m.q
  unfolding delta_levels
  delta_levels-q [] m = refl
  delta_levels-q (a ∷ l) m = delta_levels-q l (delta_level b a m) ∙ delta_level-q a m
