-- ===== src/Deals/Invariant/Steps.antt =====
-- The calls that reach the dealer of domains/deals/: those of the strategy, the
-- responses of the agent, the messages of the private channels, and the callbacks that wait.
use lapuacore.Common.{
  ℕ, suc, ◌<◌, ◌≡◌, refl, ◌↔◌, Option, some, List, String, All, arith, string_eq,
}
use lapuacore.Mutex.Map.{Map, get, get_keys, new_map}
use lapuacore.Mutex.Slice.{new_slice}
use lapuacore.Domains.Decimal.{Decimal}
use lapuacore.Deals.Errors.{Err}
use lapuacore.Deals.Order.{Order, AmendDetail, Callback, amend_later, born}
use lapuacore.Deals.World.{World, Agent, update}
use lapuacore.Deals.Messages.{
  CreateOrderResp, AmendOrderResp, CancelOrderResp, OrderData, PositionData,
}
use lapuacore.Deals.Dealer.{
  send_order, send_orders, amend_order, cancel_order, cancel_orders, run_callback,
  export_done_orders, new_dealer,
}
use lapuacore.Deals.Handlers.{
  handle_send_order_resp, handle_amend_order_resp, handle_cancel_order_resp,
  handle_send_orders_resp, handle_amend_orders_resp, handle_cancel_orders_resp,
}
use lapuacore.Deals.Streams.{handle_order_data, handle_position_data}
use lapuacore.Deals.Invariant.Books.{IsConsistent, Distinct, NotIn, NotIn-of_kind}
use lapuacore.Deals.Invariant.Unrelated.{create-Books}
use lapuacore.Deals.Invariant.Outcomes.{IsUnderWay}
use lapuacore.Deals.Invariant.Operations.{
  send_order-IsConsistent, cancel_order-IsConsistent, export_done_orders-IsConsistent,
}
use lapuacore.Deals.Invariant.Amendments.{
  OwnsId, amend_order-IsConsistent, run_callback-IsConsistent,
}
use lapuacore.Deals.Invariant.Batches.{
  cancel_orders-IsConsistent, handle_cancel_orders_resp-IsConsistent,
  handle_amend_orders_resp-IsConsistent,
}
use lapuacore.Deals.Invariant.Creates.{
  DistinctIds, DistinctKeys, send_orders-IsConsistent, handle_send_orders_resp-IsConsistent,
}
use lapuacore.Deals.Invariant.Handled.{
  handle_send_order_resp-IsConsistent, handle_amend_order_resp-IsConsistent,
  handle_cancel_order_resp-IsConsistent,
}
use lapuacore.Deals.Invariant.Streamed.{
  handle_order_data-IsConsistent, handle_position_data-IsConsistent,
}

-- A constructor of order.go gives the strategy a new order.
unfoldable pub create : {D : Type 0} → Order D → World D → World D
create o w = record w { heap = update w.heap w.next o; next = suc w.next }

-- The wall clock moves.
unfoldable pub set_now : {D : Type 0} → ℕ → World D → World D
set_now t w = record w { now = t }

module _ {D : Type 0} ⦃d : Decimal D⦄ (agent : Agent D) where
  pub data Step (w : World D) : World D → Type 0 where
    creates : (o : Order D) → o.status ≡ born → Step w (create o w)
    clock : (t : ℕ) → Step w (set_now t w)
    sends : (p : ℕ) → (w.heap p).status ≡ born → p < w.next → Step w (send_order agent p w).0
    sends_all :
        (ps : List ℕ)
        → All (λ p. ((w.heap p).status ≡ born) × (p < w.next)) ps
        → DistinctIds w ps
        → Step w (send_orders agent ps w).0
    amends : (p : ℕ) (detail : AmendDetail D) → OwnsId w p → Step w (amend_order agent p detail w).0
    cancels : (p : ℕ) → Step w (cancel_order agent p w)
    cancels_all : (ps : List ℕ) → All (IsUnderWay w) ps → Step w (cancel_orders agent ps w)
    exports : Step w (export_done_orders w).0
    runs :
        (c : Callback D) (o : ℕ)
        → ((p : ℕ) (detail : AmendDetail D) → c ≡ amend_later p detail → OwnsId w p)
        → Step w (run_callback agent c o w)
    create_resp : (r : CreateOrderResp) (e : Option Err) → Step w (handle_send_order_resp r e w)
    amend_resp : (r : AmendOrderResp D) (e : Option Err) → Step w (handle_amend_order_resp r e w)
    cancel_resp : (r : CancelOrderResp) (e : Option Err) → Step w (handle_cancel_order_resp r e w)
    create_resps :
        (rs : Map String CreateOrderResp) (e : Option Err)
        → DistinctKeys (get_keys rs)
        → Step w (handle_send_orders_resp rs e w)
    amend_resps :
        (rs : Map String (AmendOrderResp D)) (e : Option Err)
        → Step w (handle_amend_orders_resp rs e w)
    cancel_resps :
        (rs : Map String CancelOrderResp) (e : Option Err)
        → Step w (handle_cancel_orders_resp rs e w)
    order_data : (ms : List (OrderData D)) → Step w (handle_order_data ms w)
    position_data : (ms : List (PositionData D)) → Step w (handle_position_data ms w)

  pub data Reach (w : World D) : World D → Type 0 where
    here : Reach w w
    next_step : {u x : World D} → Reach w u → Step u x → Reach w x

  Step-IsConsistent : {w u : World D} → Step w u → IsConsistent w → IsConsistent u
  Step-IsConsistent (creates o b) v = unfold create in create-Books v o b
  Step-IsConsistent (clock t) v = unfold set_now in v
  Step-IsConsistent {w} (sends p b l) v = send_order-IsConsistent agent w v p b l
  Step-IsConsistent {w} (sends_all ps a i) v = send_orders-IsConsistent agent ps w v a i
  Step-IsConsistent {w} (amends p detail own) v = amend_order-IsConsistent agent w v p detail own
  Step-IsConsistent {w} (cancels p) v = cancel_order-IsConsistent agent w v p
  Step-IsConsistent {w} (cancels_all ps a) v = cancel_orders-IsConsistent agent ps w v a
  Step-IsConsistent {w} exports v = export_done_orders-IsConsistent agent w v 0
  Step-IsConsistent {w} (runs c o own) v = run_callback-IsConsistent agent w v c o own
  Step-IsConsistent {w} (create_resp r e) v = handle_send_order_resp-IsConsistent w v r e
  Step-IsConsistent {w} (amend_resp r e) v = handle_amend_order_resp-IsConsistent w v r e
  Step-IsConsistent {w} (cancel_resp r e) v = handle_cancel_order_resp-IsConsistent w v r e
  Step-IsConsistent {w} (create_resps rs e k) v = handle_send_orders_resp-IsConsistent w v rs e k
  Step-IsConsistent {w} (amend_resps rs e) v = handle_amend_orders_resp-IsConsistent rs e w v
  Step-IsConsistent {w} (cancel_resps rs e) v = handle_cancel_orders_resp-IsConsistent rs e w v
  Step-IsConsistent {w} (order_data ms) v = handle_order_data-IsConsistent ms w v
  Step-IsConsistent {w} (position_data ms) v = handle_position_data-IsConsistent ms w v

  -- Any sequence of steps keeps the books in order.
  pub Reach-IsConsistent : {w u : World D} → IsConsistent w → Reach w u → IsConsistent u
  Reach-IsConsistent v here = v
  Reach-IsConsistent v (next_step r s) = Step-IsConsistent s (Reach-IsConsistent v r)

module _ {D : Type 0} ⦃d : Decimal D⦄ (agent : Agent D) where
  -- From a world whose books are in order, after any sequence of steps (calls of the strategy, with
  -- the conditions that each constructor of `Step` names, responses, messages and waiting callbacks):
  -- an order is under way exactly where the living orders hold it under its ID, an order under way is
  -- not among the done ones, and no order is done twice.
  pub Reach-ledger :
      {w u : World D}
      → IsConsistent w
      → Reach agent w u
      → ((p : ℕ) → IsUnderWay u p ↔ (get (u.heap p).id u.dealer.living_orders ≡ some p))
        × ((p : ℕ) → IsUnderWay u p → NotIn p u.dealer.done_orders.a)
        × Distinct u.dealer.done_orders.a
  Reach-ledger {u = u} v r =
      let b = Reach-IsConsistent agent v r in
      (
        λ p. ((λ a. (b.tracked p a).0), λ g. (b.filed (u.heap p).id p g).1),
        λ p a. NotIn-of_kind u.heap u.next p u.dealer.done_orders.a (λ t. rw a at t) b.ended,
        b.distinct,
      )

module _ {D : Type 0} where
  -- The books of a new dealer are in order, in a world where every order is still as created.
  pub new_dealer-IsConsistent :
      (zero_dec : D) (w : World D) (symbol : String)
      → ((p : ℕ) → (w.heap p).status ≡ born)
      → IsConsistent (record w { dealer = new_dealer zero_dec w.now symbol })
  unfolding new_dealer new_map new_slice get
  new_dealer-IsConsistent zero_dec w symbol b = record {
    filed = λ k p g. cc;
    tracked = λ p a. ground (arith, b p);
    unlimited = refl;
    ended = tt;
    distinct = tt;
    others = λ k p g. cc;
    detailed = λ p a. let e = b p in cc;
  }
