-- ===== src/Deals/Final/Steps.antt =====
-- A done order, after any steps of the dealer of domains/deals/.
use lapuacore.Common.{ℕ, ◌<◌, ◌≡◌, refl}
use lapuacore.Domains.Decimal.{Decimal}
use lapuacore.Deals.Order.{Order, done}
use lapuacore.Deals.World.{World, Agent}
use lapuacore.Deals.Dealer.{export_done_orders}
use lapuacore.Deals.Invariant.Books.{IsConsistent}
use lapuacore.Deals.Invariant.Steps.{
  Step, creates, clock, sends, sends_all, amends, cancels, cancels_all, exports, runs, create_resp,
  amend_resp, cancel_resp, create_resps, amend_resps, cancel_resps, order_data, position_data,
  Reach, here, next_step, create, set_now, Reach-IsConsistent,
}
use lapuacore.Deals.Final.Held.{Held}
use lapuacore.Deals.Final.Operations.{
  send_order-Held, send_orders-Held, cancel_order-Held, cancel_orders-Held,
}
use lapuacore.Deals.Final.Amendments.{amend_order-Held, run_callback-Held}
use lapuacore.Deals.Final.Handlers.{
  handle_send_order_resp-Held, handle_amend_order_resp-Held, handle_cancel_order_resp-Held,
  handle_send_orders_resp-Held, handle_amend_orders_resp-Held, handle_cancel_orders_resp-Held,
}
use lapuacore.Deals.Final.Streams.{allocate-Held, handle_order_data-Held, handle_position_data-Held}

module _ {D : Type 0} ⦃d : Decimal D⦄ (agent : Agent D) where
  step-Held :
      {p : ℕ} {o : Order D} {w u : World D}
      → Step agent w u
      → IsConsistent w
      → Held p o w
      → o.status ≡ done
      → Held p o u
  unfolding create set_now export_done_orders
  step-Held {w = w} (creates n b) v h final = allocate-Held n w h
  step-Held (clock t) v h final = h
  step-Held {w = w} (sends q b l) v h final = send_order-Held agent w h final q b
  step-Held {w = w} (sends_all qs a i) v h final = send_orders-Held agent w h final qs a
  step-Held {w = w} (amends q detail own) v h final =
      amend_order-Held agent w v h final q detail own
  step-Held {w = w} (cancels q) v h final = cancel_order-Held agent w h final q
  step-Held {w = w} (cancels_all qs a) v h final = cancel_orders-Held agent w h final qs a
  step-Held exports v h final = h
  step-Held {w = w} (runs c q own) v h final = run_callback-Held agent w v h final c q own
  step-Held {w = w} (create_resp r e) v h final = handle_send_order_resp-Held final r e w h
  step-Held {w = w} (amend_resp r e) v h final = handle_amend_order_resp-Held final r e w h
  step-Held {w = w} (cancel_resp r e) v h final = handle_cancel_order_resp-Held final r e w h
  step-Held {w = w} (create_resps rs e k) v h final = handle_send_orders_resp-Held final rs e w h
  step-Held {w = w} (amend_resps rs e) v h final = handle_amend_orders_resp-Held final rs e w h
  step-Held {w = w} (cancel_resps rs e) v h final = handle_cancel_orders_resp-Held final rs e w h
  step-Held {w = w} (order_data ms) v h final = handle_order_data-Held ms w v h final
  step-Held {w = w} (position_data ms) v h final = handle_position_data-Held ms w h

  run-Held :
      {p : ℕ} {o : Order D} {w u : World D}
      → IsConsistent w
      → Reach agent w u
      → Held p o w
      → o.status ≡ done
      → Held p o u
  run-Held v here h final = h
  run-Held v (next_step r s) h final =
      step-Held s (Reach-IsConsistent agent v r) (run-Held v r h final) final

  -- From a world whose books are in order, an order that is done stays, after any sequence of steps
  -- with the conditions that each constructor of `Step` names, exactly as it is: its status, its
  -- reason, what was executed of it and its callbacks. The conditions leave out a `SendOrder` or
  -- `SendOrders` of an order that was sent before, and a `CancelOrders` with an order that is not
  -- under way; such calls may change a done order.
  pub Reach-done_final :
      {w u : World D} (p : ℕ)
      → IsConsistent w
      → Reach agent w u
      → p < w.next
      → (w.heap p).status ≡ done
      → u.heap p ≡ w.heap p
  Reach-done_final p v r l final = (run-Held v r (refl, l) final).0
