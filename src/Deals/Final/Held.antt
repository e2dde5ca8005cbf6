-- ===== src/Deals/Final/Held.antt =====
-- The outcomes of domains/deals/dealing_handlers.go leave an order alone that they are not about.
use lapuacore.Common.{
  ℕ, ◌<◌, ◌≡◌, ap, ◌∙◌, ◌≢◌, Bool, true, false, Option, List, [], ◌∷◌, String, All, arith,
  if◌then◌else◌,
}
use lapuacore.Deals.Errors.{Err}
use lapuacore.Domains.Commons.{OrderType, limit_ioc}
use lapuacore.Deals.Order.{Order, AmendDetail, done, born}
use lapuacore.Deals.World.{World, modify, update, spawn}
use lapuacore.Deals.Outcome.{
  retire, accept_filled, accept_partially_filled, accept_partially_filled_by, accept_amend,
  accept_create, accept_cancel, reject_amend, reject_create, reject_cancel, reject_creates,
  reject_amends, reject_cancels, abandon_order,
}
use lapuacore.Deals.Invariant.Books.{kind, active_kind}

-- The order behind the pointer is `o`, and was allocated.
abbrev pub Held : {D : Type 0} → ℕ → Order D → World D → Type 0
Held p o w = (w.heap p ≡ o) × (p < w.next)

module _ {D : Type 0} {p : ℕ} {o : Order D} where
  pub modify-Held :
      (q : ℕ) (f : Order D → Order D) (w : World D) → q ≢ p → Held p o w → Held p o (modify q f w)
  unfolding modify update
  modify-Held q f w n h = ground arith

  pub branch : (b : Bool) (x y : World D) → Held p o x → Held p o y → Held p o (if b then x else y)
  branch true x y h k = h
  branch false x y h k = k

  pub branch_result :
      (b : Bool) (x y : World D × Option Err)
      → Held p o x.0
      → Held p o y.0
      → Held p o (if b then x else y).0
  branch_result true x y h k = h
  branch_result false x y h k = k

  module _ (w : World D) (h : Held p o w) (final : o.status ≡ done) (q : ℕ) where
    done_at : q ≡ p → (w.heap q).status ≡ done
    done_at e = ap (λ r. (w.heap r).status) e ∙ ap (λ c. c.status) h.0 ∙ final

    -- An order that is under way, or new, is another one.
    pub apart-active : kind (w.heap q).status ≡ active_kind → q ≢ p
    apart-active a e = let d = ap kind (done_at e) in cc

    pub apart-born : (w.heap q).status ≡ born → q ≢ p
    apart-born b e = let d = done_at e in cc

  module _ (w : World D) (q : ℕ) (n : q ≢ p) (h : Held p o w) where
    pub accept_filled-Held : Held p o (accept_filled q w)
    unfolding accept_filled retire spawn
    accept_filled-Held = modify-Held q _ w n h

    partially_filled_by : (t : OrderType) → Held p o (accept_partially_filled_by t q w)
    unfolding accept_partially_filled_by retire spawn
    partially_filled_by limit_ioc = modify-Held q _ w n h
    partially_filled_by _ = h

    pub accept_partially_filled-Held : Held p o (accept_partially_filled q w)
    unfolding accept_partially_filled
    accept_partially_filled-Held = partially_filled_by (w.heap q).order_type

    pub accept_amend-Held :
        (detail : AmendDetail D) (arrived confirmed : Option ℕ)
        → Held p o (accept_amend q detail arrived confirmed w)
    unfolding accept_amend spawn
    accept_amend-Held detail arrived confirmed = modify-Held q _ w n h

    pub accept_create-Held :
        (id : String) (arrived confirmed : Option ℕ)
        → Held p o (accept_create q id arrived confirmed w)
    unfolding accept_create spawn
    accept_create-Held id arrived confirmed = modify-Held q _ w n h

    pub accept_cancel-Held : Held p o (accept_cancel q w)
    unfolding accept_cancel retire spawn
    accept_cancel-Held = modify-Held q _ w n h

    pub reject_amend-Held : Held p o (reject_amend q w)
    unfolding reject_amend spawn
    reject_amend-Held = modify-Held q _ w n h

    pub reject_create-Held : Held p o (reject_create q w)
    unfolding reject_create retire spawn
    reject_create-Held = modify-Held q _ w n h

    pub reject_cancel-Held : Held p o (reject_cancel q w)
    unfolding reject_cancel spawn
    reject_cancel-Held = modify-Held q _ w n h

    pub abandon_order-Held : Held p o (abandon_order q w)
    unfolding abandon_order retire
    abandon_order-Held = modify-Held q _ w n h

  pub reject_creates-Held :
      (qs : List ℕ) (w : World D)
      → All (λ q. q ≢ p) qs
      → Held p o w
      → Held p o (reject_creates qs w)
  unfolding reject_creates
  reject_creates-Held [] w n h = h
  reject_creates-Held (q ∷ qs) w n h = reject_creates-Held qs _ n.1 (reject_create-Held w q n.0 h)

  pub reject_amends-Held :
      (qs : List ℕ) (w : World D) → All (λ q. q ≢ p) qs → Held p o w → Held p o (reject_amends qs w)
  unfolding reject_amends
  reject_amends-Held [] w n h = h
  reject_amends-Held (q ∷ qs) w n h = reject_amends-Held qs _ n.1 (reject_amend-Held w q n.0 h)

  pub reject_cancels-Held :
      (qs : List ℕ) (w : World D)
      → All (λ q. q ≢ p) qs
      → Held p o w
      → Held p o (reject_cancels qs w)
  unfolding reject_cancels
  reject_cancels-Held [] w n h = h
  reject_cancels-Held (q ∷ qs) w n h = reject_cancels-Held qs _ n.1 (reject_cancel-Held w q n.0 h)
