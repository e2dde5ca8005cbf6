-- ===== src/Deals/Invariant/Operations.antt =====
-- Sending and canceling, by domains/deals/dealer.go, keep the books in order.
use lapuacore.Common.{
  ℕ, ◌<◌, ◌≡◌, refl, sym, ◌≢◌, inl, inr, false, Option, none, some, arith, string_eq, Bool-cases,
  ◌∙◌, ap,
}
use lapuacore.Mutex.Slice.{new_slice}
use lapuacore.Deals.Errors.{Err}
use lapuacore.Deals.Order.{
  OrderStatus, cancel_later, born, sending, pending, canceling, amending, set_status,
  record_last_operated_timestamp, replace_create_callbacks, replace_amend_callbacks,
}
use lapuacore.Deals.World.{World, Agent, modify, call_agent}
use lapuacore.Deals.Dealer.{
  register, start_operation, is_living, settle_create, send_order, settle_cancel, cancel_by_status,
  cancel_now, defer_cancel, drop_amending, cancel_order, cancel_order_by_status, export_done_orders,
}
use lapuacore.Deals.Invariant.Books.{IsConsistent, kind, active_kind, fresh_kind}
use lapuacore.Deals.Invariant.Changes.{register-Books}
use lapuacore.Deals.Invariant.Outcomes.{
  IsUnderWay, update_self, modify-IsConsistent, reject_create-IsConsistent,
  reject_cancel-IsConsistent,
}

module _ {D : Type 0} (w : World D) (v : IsConsistent w) (p : ℕ) where
  pub register-IsConsistent :
      kind (w.heap p).status ≡ fresh_kind
      → p < w.next
      → is_living w p ≡ false
      → IsConsistent (register p w)
  unfolding register modify start_operation is_living record_last_operated_timestamp set_status
  register-IsConsistent f b n = register-Books v p _ refl f b refl (ground arith)

  pub start-IsConsistent :
      (s : OrderStatus)
      → kind s ≡ active_kind
      → s ≢ amending
      → IsUnderWay w p
      → IsConsistent (start_operation s p w)
  unfolding start_operation record_last_operated_timestamp set_status
  start-IsConsistent s k n a =
      modify-IsConsistent w v p _ refl (k ∙ sym a) (inl refl) (λ e. absurd (n e))

register-active : {D : Type 0} (w : World D) (p : ℕ) → IsUnderWay (register p w) p
unfolding register modify start_operation record_last_operated_timestamp set_status
register-active w p = ap (λ o. kind o.status) (update_self w.heap p _)

start-active :
    {D : Type 0} (w : World D) (p : ℕ) (s : OrderStatus)
    → kind s ≡ active_kind
    → IsUnderWay (start_operation s p w) p
unfolding modify start_operation record_last_operated_timestamp set_status
start-active w p s k = ap (λ o. kind o.status) (update_self w.heap p _) ∙ k

module _ {D : Type 0} (agent : Agent D) (w : World D) (v : IsConsistent w) (p : ℕ) where
  settle_create-IsConsistent :
      (err : Option Err) → IsUnderWay w p → IsConsistent (settle_create agent p (w, err)).0
  unfolding settle_create
  settle_create-IsConsistent none a = v
  settle_create-IsConsistent (some e) a = reject_create-IsConsistent w v p a

  settle_cancel-IsConsistent :
      (err : Option Err) → IsUnderWay w p → IsConsistent (settle_cancel agent p (w, err)).0
  unfolding settle_cancel
  settle_cancel-IsConsistent none a = v
  settle_cancel-IsConsistent (some e) a = reject_cancel-IsConsistent w v p a

module _ {D : Type 0} (agent : Agent D) (w : World D) (v : IsConsistent w) (p : ℕ) where
  -- `SendOrder` of a new order keeps the books in order, whatever the agent answers.
  pub send_order-IsConsistent :
      (w.heap p).status ≡ born → p < w.next → IsConsistent (send_order agent p w).0
  unfolding send_order call_agent
  send_order-IsConsistent s b = elim (Bool-cases w.dealer.accept_order) [
    | inl yes' ↦ elim (Bool-cases (is_living w p)) [
      | inl old ↦ rw (yes', old) v
      | inr new ↦
          rw (yes', new)
            (settle_create-IsConsistent agent _ (register-IsConsistent w v p (rw s refl) b new) p _
              (register-active w p))
    ]
    | inr no' ↦ rw no' v
  ]

  cancel_by :
      (s : OrderStatus) → (w.heap p).status ≡ s → IsConsistent (cancel_by_status agent s p w).0
  unfolding cancel_by_status call_agent
  cancel_by pending e =
      settle_cancel-IsConsistent agent _
        (start-IsConsistent w v p canceling refl (λ c. cc) (rw e refl)) p _
        (start-active w p canceling refl)
  cancel_by _ e = v

  -- `cancelOrder`, as a call or as a deferred callback.
  pub cancel_now-IsConsistent : IsConsistent (cancel_now agent p w).0
  unfolding cancel_now
  cancel_now-IsConsistent = cancel_by (w.heap p).status refl

  pub defer_cancel-IsConsistent :
      (s : OrderStatus) → (w.heap p).status ≡ s → IsConsistent (defer_cancel agent s p w)
  unfolding defer_cancel drop_amending replace_create_callbacks replace_amend_callbacks
  defer_cancel-IsConsistent sending e =
      modify-IsConsistent _ v p (replace_create_callbacks cancel_later) refl refl (inl refl)
        (v.detailed p)
  defer_cancel-IsConsistent amending e =
      modify-IsConsistent _ v p (replace_amend_callbacks cancel_later) refl refl (inl refl)
        (v.detailed p)
  defer_cancel-IsConsistent _ e = v

  cancel_order_by :
      (s : OrderStatus) → (w.heap p).status ≡ s → IsConsistent (cancel_order_by_status agent s p w)
  unfolding cancel_order_by_status
  cancel_order_by pending e = cancel_now-IsConsistent
  cancel_order_by s e = defer_cancel-IsConsistent s e

  -- `CancelOrder`, in every status of the order.
  pub cancel_order-IsConsistent : IsConsistent (cancel_order agent p w)
  unfolding cancel_order
  cancel_order-IsConsistent = cancel_order_by (w.heap p).status refl

  pub export_done_orders-IsConsistent : IsConsistent (export_done_orders w).0
  unfolding export_done_orders new_slice
  export_done_orders-IsConsistent = record {
    filed = v.filed;
    tracked = v.tracked;
    detailed = v.detailed;
    unlimited = refl;
    ended = tt;
    distinct = tt;
    others = λ k q g. let f = v.others k q g in (f.0, f.1, f.2, tt);
  }
