-- ===== src/Deals/Final/Streams.antt =====
-- The messages of the private channels (domains/deals/dealing_handlers.go) leave a done order alone.
use lapuacore.Common.{
  ℕ, suc, ◌≡◌, ◌≢◌, inl, inr, Option, none, some, List, [], ◌∷◌, String, string_eq, Option-cases,
  arith,
}
use lapuacore.Mutex.Map.{get}
use lapuacore.Domains.Decimal.{Decimal}
use lapuacore.Deals.Order.{Order, done}
use lapuacore.Deals.World.{World, update}
use lapuacore.Deals.Messages.{
  OrderData, OrderDataStatus, opened, filled, partially_filled, is_done_status, is_unrelated,
  PositionData,
}
use lapuacore.Deals.Streams.{
  finish_unrelated_at, finish_unrelated, fill_living, fill_found, open_unrelated_by,
  track_unrelated, handle_order_message, handle_order_data, update_position, handle_position_data,
}
use lapuacore.Deals.Invariant.Books.{IsConsistent}
use lapuacore.Deals.Invariant.Streamed.{
  track_unrelated-IsConsistent, handle_order_message-IsConsistent,
}
use lapuacore.Deals.Final.Held.{
  Held, modify-Held, branch, apart-active, accept_filled-Held, accept_partially_filled-Held,
}

-- A new order stands at a pointer of its own.
pub allocate-Held :
    {D : Type 0} {p : ℕ} {o : Order D} (n : Order D) (w : World D)
    → Held p o w
    → Held p o (record w { heap = update w.heap w.next n; next = suc w.next })
unfolding update
allocate-Held n w h = ground arith

module _ {D : Type 0} ⦃d : Decimal D⦄ {p : ℕ} {o : Order D} where
  fill_living-Held :
      (s : OrderDataStatus) (q : ℕ) (m : OrderData D) (w : World D)
      → q ≢ p
      → Held p o w
      → Held p o (fill_living s q m w)
  unfolding fill_living
  fill_living-Held filled q m w n h = accept_filled-Held _ q n (modify-Held q _ w n h)
  fill_living-Held partially_filled q m w n h =
      accept_partially_filled-Held _ q n (modify-Held q _ w n h)
  fill_living-Held _ q m w n h = h

  finish_at-Held :
      (x : Option ℕ) (id : String) (w : World D)
      → Held p o w
      → Held p o (finish_unrelated_at x id w)
  unfolding finish_unrelated_at
  finish_at-Held none id w h = h
  finish_at-Held (some q) id w h = h

  open_unrelated-Held :
      (s : OrderDataStatus) (m : OrderData D) (w : World D)
      → Held p o w
      → Held p o (open_unrelated_by s m w)
  unfolding open_unrelated_by
  open_unrelated-Held opened m w h = allocate-Held _ w h
  open_unrelated-Held _ m w h = h

  track_unrelated-Held :
      (m : OrderData D) (w : World D) → Held p o w → Held p o (track_unrelated m w)
  unfolding track_unrelated finish_unrelated
  track_unrelated-Held m w h =
      let k = open_unrelated-Held m.status m w h in
      branch (is_unrelated m) _ _ (branch (is_done_status m.status) _ _ (finish_at-Held _ _ _ k) k)
        h

  -- A message finds the order by the books, where only orders under way are.
  message-Held :
      (m : OrderData D) (w : World D)
      → IsConsistent w
      → Held p o w
      → o.status ≡ done
      → Held p o (handle_order_message m w)
  unfolding handle_order_message fill_found
  message-Held m w v h final =
      let w1 = track_unrelated m w in
      let h1 = track_unrelated-Held m w h in
      elim (Option-cases (get m.id w1.dealer.living_orders)) [
        | inl e ↦ rw (e, fill_found) h1
        | inr (q, e) ↦
            rw (e, fill_found)
              (fill_living-Held m.status q m w1
                (apart-active w1 h1 final q ((track_unrelated-IsConsistent m w v).filed m.id q e).1)
                h1)
      ]

  pub handle_order_data-Held :
      (ms : List (OrderData D)) (w : World D)
      → IsConsistent w
      → Held p o w
      → o.status ≡ done
      → Held p o (handle_order_data ms w)
  unfolding handle_order_data
  handle_order_data-Held [] w v h final = h
  handle_order_data-Held (m ∷ ms) w v h final =
      handle_order_data-Held ms _ (handle_order_message-IsConsistent m w v)
        (message-Held m w v h final) final

  update_position-Held :
      (x : Option (PositionData D)) (w : World D) → Held p o w → Held p o (update_position x w)
  unfolding update_position
  update_position-Held none w h = h
  update_position-Held (some m) w h = branch _ _ _ h h

  pub handle_position_data-Held :
      (ms : List (PositionData D)) (w : World D) → Held p o w → Held p o (handle_position_data ms w)
  unfolding handle_position_data
  handle_position_data-Held ms w h = update_position-Held _ w h
