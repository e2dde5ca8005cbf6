-- ===== src/Deals/Invariant/Streamed.antt =====
-- The message handlers of domains/deals/dealing_handlers.go keep the books in order.
use lapuacore.Common.{
  ℕ, ◌≡◌, refl, sym, inl, inr, Option, none, some, List, [], ◌∷◌, String, string_eq, Option-cases,
  ◌∙◌, ap,
}
use lapuacore.Mutex.Map.{get}
use lapuacore.Domains.Decimal.{Decimal}
use lapuacore.Domains.Commons.{OrderType, market}
use lapuacore.Deals.Order.{
  Order, set_filled_at, set_avg_price, set_exec_qty, set_fee, set_sent_timestamp,
  set_confirm_timestamps,
}
use lapuacore.Deals.World.{World}
use lapuacore.Deals.Messages.{
  OrderData, OrderDataStatus, filled, partially_filled, opened, PositionData,
}
use lapuacore.Deals.Streams.{
  blank_order, set_order_partially_fill_info, fill_times, set_order_fill_info, finish_unrelated_at,
  finish_unrelated, fill_living, fill_found, open_unrelated_by, track_unrelated,
  handle_order_message, handle_order_data, update_position, handle_position_data,
}
use lapuacore.Deals.Invariant.Books.{IsConsistent, kind}
use lapuacore.Deals.Invariant.Unrelated.{allocate-Books, finish_unrelated-Books}
use lapuacore.Deals.Invariant.Outcomes.{
  IsUnderWay, modify_self, modify-IsConsistent, accept_filled-IsConsistent,
  accept_partially_filled-IsConsistent,
}
use lapuacore.Deals.Invariant.Handled.{branch}

module _ {D : Type 0} where
  fill_times_keeps :
      (t : OrderType) (m : OrderData D) (o : Order D)
      → ((fill_times t m o).id ≡ o.id)
        × ((fill_times t m o).status ≡ o.status)
        × ((fill_times t m o).public_id ≡ o.public_id)
        × ((fill_times t m o).amending_detail ≡ o.amending_detail)
  unfolding fill_times set_confirm_timestamps set_sent_timestamp
  fill_times_keeps market m o = (refl, refl, refl, refl)
  fill_times_keeps _ m o = (refl, refl, refl, refl)

  fill_info_keeps :
      (m : OrderData D) (o : Order D)
      → ((set_order_fill_info m o).id ≡ o.id)
        × ((set_order_fill_info m o).status ≡ o.status)
        × ((set_order_fill_info m o).public_id ≡ o.public_id)
        × ((set_order_fill_info m o).amending_detail ≡ o.amending_detail)
  unfolding set_order_fill_info set_order_partially_fill_info set_filled_at set_avg_price
      set_exec_qty set_fee
  fill_info_keeps m o = fill_times_keeps o.order_type m _

module _ {D : Type 0} (w : World D) (v : IsConsistent w) (m : OrderData D) where
  fill_living-IsConsistent :
      (s : OrderDataStatus) (p : ℕ) → IsUnderWay w p → IsConsistent (fill_living s p m w)
  unfolding fill_living
  fill_living-IsConsistent filled p a =
      let k = fill_info_keeps m (w.heap p) in
      accept_filled-IsConsistent _
        (modify-IsConsistent w v p (set_order_fill_info m) k.0 (ap kind k.1) (inl k.2)
          (λ e. rw k.3 (v.detailed p (sym k.1 ∙ e))))
        p (ap (λ o. kind o.status) (modify_self w p _) ∙ ap kind k.1 ∙ a)
  fill_living-IsConsistent partially_filled p a =
      accept_partially_filled-IsConsistent _
        (modify-IsConsistent w v p (set_order_partially_fill_info m)
          (unfold set_order_partially_fill_info set_filled_at set_avg_price set_exec_qty set_fee in
            refl)
          (unfold set_order_partially_fill_info set_filled_at set_avg_price set_exec_qty set_fee in
            refl)
          (inl (
            unfold set_order_partially_fill_info set_filled_at set_avg_price set_exec_qty set_fee in
            refl))
          (unfold set_order_partially_fill_info set_filled_at set_avg_price set_exec_qty set_fee in
            v.detailed p))
        p
        (ap (λ o. kind o.status) (modify_self w p _)
          ∙ (unfold set_order_partially_fill_info set_filled_at set_avg_price set_exec_qty
                set_fee in
              a))
  fill_living-IsConsistent _ p a = v

  fill_found-IsConsistent :
      (id : String) → IsConsistent (fill_found (get id w.dealer.living_orders) m w)
  unfolding fill_found
  fill_found-IsConsistent id = elim (Option-cases (get id w.dealer.living_orders)) [
    | inl e ↦ rw (e, fill_found) v
    | inr (p, e) ↦ rw (e, fill_found) (fill_living-IsConsistent m.status p (v.filed id p e).1)
  ]

  finish_found :
      (o : Option ℕ)
      → get m.public_id w.dealer.unrelated_orders ≡ o
      → IsConsistent (finish_unrelated_at o m.public_id w)
  unfolding finish_unrelated_at
  finish_found none e = v
  finish_found (some p) e = finish_unrelated-Books v m.public_id p e

  finish_unrelated-IsConsistent : IsConsistent (finish_unrelated m w)
  unfolding finish_unrelated
  finish_unrelated-IsConsistent = branch _ _ _ (finish_found _ refl) v

module _ {D : Type 0} ⦃d : Decimal D⦄ where
  open_unrelated-IsConsistent :
      (s : OrderDataStatus) (m : OrderData D) (w : World D)
      → IsConsistent w
      → IsConsistent (open_unrelated_by s m w)
  unfolding open_unrelated_by blank_order set_confirm_timestamps
  open_unrelated-IsConsistent opened m w v = allocate-Books v _ refl
  open_unrelated-IsConsistent _ m w v = v

  pub track_unrelated-IsConsistent :
      (m : OrderData D) (w : World D) → IsConsistent w → IsConsistent (track_unrelated m w)
  unfolding track_unrelated
  track_unrelated-IsConsistent m w v =
      branch _ _ _ (finish_unrelated-IsConsistent _ (open_unrelated-IsConsistent m.status m w v) m)
        v

  -- One message of the private order channel.
  pub handle_order_message-IsConsistent :
      (m : OrderData D) (w : World D) → IsConsistent w → IsConsistent (handle_order_message m w)
  unfolding handle_order_message
  handle_order_message-IsConsistent m w v =
      fill_found-IsConsistent _ (track_unrelated-IsConsistent m w v) m m.id

  -- `HandleOrderData`, for any messages.
  pub handle_order_data-IsConsistent :
      (ms : List (OrderData D)) (w : World D)
      → IsConsistent w
      → IsConsistent (handle_order_data ms w)
  unfolding handle_order_data
  handle_order_data-IsConsistent [] w v = v
  handle_order_data-IsConsistent (m ∷ ms) w v =
      handle_order_data-IsConsistent ms _ (handle_order_message-IsConsistent m w v)

  update_position-IsConsistent :
      (o : Option (PositionData D)) (w : World D)
      → IsConsistent w
      → IsConsistent (update_position o w)
  unfolding update_position
  update_position-IsConsistent none w v = v
  update_position-IsConsistent (some m) w v = branch _ _ _ v v

  pub handle_position_data-IsConsistent :
      (ms : List (PositionData D)) (w : World D)
      → IsConsistent w
      → IsConsistent (handle_position_data ms w)
  unfolding handle_position_data
  handle_position_data-IsConsistent ms w v = update_position-IsConsistent _ w v
