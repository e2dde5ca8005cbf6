-- ===== src/Deals/Invariant/Amendments.antt =====
-- The amendments and the callbacks of domains/deals/dealer.go keep the books in order.
use lapuacore.Common.{
  ℕ, ◌≡◌, refl, sym, inl, inr, Bool, true, false, Option, none, some, arith, string_eq,
  if◌then◌else◌, Bool-cases, Option-cases, ◌∙◌, ap, is_some, not,
}
use lapuacore.Mutex.Map.{get}
use lapuacore.Domains.Decimal.{Decimal}
use lapuacore.Deals.Errors.{Err}
use lapuacore.Deals.Order.{
  Order, OrderStatus, AmendDetail, Callback, amend_later, cancel_later, sending, pending, amending,
  done, set_status, record_last_operated_timestamp, set_amending_detail, set_create_callback,
  set_amend_callback, is_amend_able, is_need_to_amend,
}
use lapuacore.Deals.World.{World, Agent, spawn, call_agent}
use lapuacore.Deals.Dealer.{
  is_living, drop_amending, settle_amend, start_amend, try_amend, amend_now, defer_amend,
  set_amending, amend_order_by_status, amend_order, run_callback,
}
use lapuacore.Deals.Invariant.Books.{IsConsistent, kind, active_kind}
use lapuacore.Deals.Invariant.Outcomes.{
  IsUnderWay, modify_self, modify-IsConsistent, reject_amend-IsConsistent,
}
use lapuacore.Deals.Invariant.Operations.{cancel_now-IsConsistent}

-- The order filed under the ID of `p`, if there is one, is `p`: order IDs are unique.
abbrev pub OwnsId : {D : Type 0} → World D → ℕ → Type 0
OwnsId w p = (q : ℕ) → get (w.heap p).id w.dealer.living_orders ≡ some q → q ≡ p

-- A test whose outcome the proof does not need.
branch :
    {D : Type 0} (b : Bool) (x y : World D × Option Err)
    → IsConsistent x.0
    → IsConsistent y.0
    → IsConsistent (if b then x else y).0
branch true x y h k = h
branch false x y h k = k

module _ {D : Type 0} where
  create_callback_keeps :
      (c : Callback D) (o : Order D)
      → ((set_create_callback c o).id ≡ o.id)
        × ((set_create_callback c o).status ≡ o.status)
        × ((set_create_callback c o).public_id ≡ o.public_id)
        × ((set_create_callback c o).amending_detail ≡ o.amending_detail)
  unfolding set_create_callback
  create_callback_keeps c o = ground arith

  amend_callback_keeps :
      (c : Callback D) (o : Order D)
      → ((set_amend_callback c o).id ≡ o.id)
        × ((set_amend_callback c o).status ≡ o.status)
        × ((set_amend_callback c o).public_id ≡ o.public_id)
        × ((set_amend_callback c o).amending_detail ≡ o.amending_detail)
  unfolding set_amend_callback
  amend_callback_keeps c o = ground arith

module _ {D : Type 0} ⦃d : Decimal D⦄ (agent : Agent D) (w : World D) (v : IsConsistent w)
    (p : ℕ) where
  settle_amend-IsConsistent :
      (err : Option Err) → IsUnderWay w p → IsConsistent (settle_amend agent p (w, err)).0
  unfolding settle_amend
  settle_amend-IsConsistent none a = v
  settle_amend-IsConsistent (some e) a = reject_amend-IsConsistent w v p a

module _ {D : Type 0} ⦃d : Decimal D⦄ (agent : Agent D) (w : World D) (v : IsConsistent w) (p : ℕ)
    (detail : AmendDetail D) where
  start_amend-IsConsistent :
      (s : OrderStatus)
      → (w.heap p).status ≡ s
      → kind s ≡ active_kind
      → IsConsistent (settle_amend agent p (start_amend agent s p detail w)).0
  unfolding start_amend call_agent record_last_operated_timestamp set_amending_detail set_status
  start_amend-IsConsistent pending e a =
      settle_amend-IsConsistent agent _
        (modify-IsConsistent w v p _ refl (rw e refl) (inl refl) (λ c. λ n. cc)) p _
        (ap (λ o. kind o.status) (modify_self w p _))
  start_amend-IsConsistent s e a = settle_amend-IsConsistent agent w v p _ (ap kind e ∙ a)

  try_amend-IsConsistent :
      IsUnderWay w p → IsConsistent (settle_amend agent p (try_amend agent p detail w)).0
  unfolding try_amend
  try_amend-IsConsistent a = elim (Bool-cases (is_amend_able (w.heap p))) [
    | inr no' ↦ rw no' (settle_amend-IsConsistent agent w v p _ a)
    | inl yes' ↦ elim (Bool-cases (is_need_to_amend (w.heap p) detail)) [
      | inr same ↦ rw (yes', same) (settle_amend-IsConsistent agent w v p none a)
      | inl new ↦ rw (yes', new) (start_amend-IsConsistent (w.heap p).status refl a)
    ]
  ]

  pub owned_active : OwnsId w p → is_living w p ≡ true → IsUnderWay w p
  unfolding is_living
  owned_active own living = elim (Option-cases (get (w.heap p).id w.dealer.living_orders)) [
    | inl n ↦ ground arith
    | inr (q, g) ↦ rw (own q g) at ((v.filed (w.heap p).id q g).1)
  ]

  -- `amendOrder`.
  pub amend_now-IsConsistent : OwnsId w p → IsConsistent (amend_now agent p detail w).0
  unfolding amend_now spawn
  amend_now-IsConsistent own = elim (Bool-cases (is_living w p)) [
    | inl living ↦ rw living (try_amend-IsConsistent (owned_active own living))
    | inr gone ↦ rw gone v
  ]

  defer_amend-IsConsistent :
      (register_callback : Callback D → Order D → Order D)
      → ((c : Callback D) (o : Order D)
          → ((register_callback c o).id ≡ o.id)
            × ((register_callback c o).status ≡ o.status)
            × ((register_callback c o).public_id ≡ o.public_id)
            × ((register_callback c o).amending_detail ≡ o.amending_detail))
      → IsConsistent (defer_amend agent register_callback p detail w)
  unfolding defer_amend set_amending
  defer_amend-IsConsistent f k =
      let k1 = k (amend_later p detail) (w.heap p) in
      elim (Bool-cases (is_some (get (w.heap p).id w.dealer.amending_detail_map))) [
        | inl old ↦ rw old v
        | inr new ↦ rw new (
            modify-IsConsistent w v p (f (amend_later p detail)) k1.0 (ap kind k1.1) (inl k1.2)
              (λ e. rw k1.3 (v.detailed p (sym k1.1 ∙ e))))
      ]

  amend_order_by :
      (s : OrderStatus)
      → (w.heap p).status ≡ s
      → OwnsId w p
      → IsConsistent (amend_order_by_status agent s p detail w).0
  unfolding amend_order_by_status spawn
  amend_order_by done e own = v
  amend_order_by pending e own = amend_now-IsConsistent own
  amend_order_by sending e own = defer_amend-IsConsistent set_create_callback create_callback_keeps
  amend_order_by amending e own = defer_amend-IsConsistent set_amend_callback amend_callback_keeps
  amend_order_by _ e own = v

  -- `AmendOrder`, in every status of the order.
  pub amend_order-IsConsistent : OwnsId w p → IsConsistent (amend_order agent p detail w).0
  unfolding amend_order
  amend_order-IsConsistent own =
      branch (not w.dealer.accept_order) _ _ v (amend_order_by (w.heap p).status refl own)

module _ {D : Type 0} ⦃d : Decimal D⦄ (agent : Agent D) (w : World D) (v : IsConsistent w) where
  -- A goroutine that runs a callback.
  pub run_callback-IsConsistent :
      (c : Callback D) (o : ℕ)
      → ((p : ℕ) (detail : AmendDetail D) → c ≡ amend_later p detail → OwnsId w p)
      → IsConsistent (run_callback agent c o w)
  unfolding run_callback drop_amending
  run_callback-IsConsistent (Callback.user n) o own = v
  run_callback-IsConsistent (amend_later p captured) o own =
      amend_now-IsConsistent agent _ v p _ (own p captured refl)
  run_callback-IsConsistent cancel_later o own = cancel_now-IsConsistent agent w v o
