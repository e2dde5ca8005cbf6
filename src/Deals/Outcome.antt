-- ===== src/Deals/Outcome.antt =====
-- The `accept…` and `reject…` methods and `abandonOrder` of domains/deals/dealing_handlers.go, run
-- under the order's operation lock.
use lapuacore.Common.{ℕ, Option, none, List, [], ◌∷◌, String, if◌then◌else◌, ◌==◌, string_eq}
use lapuacore.Mutex.Map.{delete}
use lapuacore.Mutex.Slice.{append}
use lapuacore.Domains.Commons.{OrderType, limit_ioc}
use lapuacore.Deals.Order.{
  AmendDetail, set_status, set_order_done_reason, set_public_id, set_sent_timestamp,
  set_confirm_timestamps, set_amending_detail, amend, done, pending, filled_reason,
  partially_filled_and_canceled, canceled_reason, rejected_reason, abandoned_reason,
}
use lapuacore.Deals.World.{World, modify, spawn, with_dealer}

module _ {D : Type 0} where
  -- `LivingOrders.Delete(order.GetID())` and `doneOrders.Append(order)`.
  unfoldable pub retire : ℕ → World D → World D
  retire p w =
      with_dealer
        (λ d. record d {
          living_orders = delete (w.heap p).id d.living_orders;
          done_orders = append p d.done_orders;
        })
        w

  unfoldable pub accept_filled : ℕ → World D → World D
  accept_filled p w =
      let w1 = modify p (λ o. set_order_done_reason filled_reason (set_status done o)) w in
      spawn p (w.heap p).fill_callbacks (retire p w1)

  unfoldable pub accept_partially_filled_by : OrderType → ℕ → World D → World D
  accept_partially_filled_by limit_ioc p w =
      let w1 =
        modify p (λ o. set_order_done_reason partially_filled_and_canceled (set_status done o)) w in
      spawn p (w.heap p).partially_fill_callbacks (retire p w1)
  accept_partially_filled_by _ p w = w

  unfoldable pub accept_partially_filled : ℕ → World D → World D
  unfolding accept_partially_filled_by
  accept_partially_filled p w = accept_partially_filled_by (w.heap p).order_type p w

  unfoldable pub accept_amend : ℕ → AmendDetail D → Option ℕ → Option ℕ → World D → World D
  accept_amend p detail arrived confirmed w = spawn p (w.heap p).amend_callbacks (
      modify p
        (λ o. set_confirm_timestamps arrived confirmed (
          set_sent_timestamp o.last_operated_at
            (amend detail (set_amending_detail none (set_status pending o)))))
        w)

  unfoldable pub accept_create : ℕ → String → Option ℕ → Option ℕ → World D → World D
  accept_create p public_id arrived confirmed w = spawn p (w.heap p).create_callbacks (
      modify p
        (λ o. set_confirm_timestamps arrived confirmed (
          set_sent_timestamp o.last_operated_at (
            if public_id == ""
            then set_status pending o
            else set_public_id public_id (set_status pending o))))
        w)

  unfoldable pub accept_cancel : ℕ → World D → World D
  accept_cancel p w =
      let w1 = modify p (λ o. set_order_done_reason canceled_reason (set_status done o)) w in
      spawn p (w.heap p).cancel_callbacks (retire p w1)

  unfoldable pub reject_amend : ℕ → World D → World D
  reject_amend p w =
      spawn p (w.heap p).amend_reject_callbacks
        (modify p (λ o. set_amending_detail none (set_status pending o)) w)

  unfoldable pub reject_create : ℕ → World D → World D
  reject_create p w =
      let w1 = modify p (λ o. set_order_done_reason rejected_reason (set_status done o)) w in
      spawn p (w.heap p).create_reject_callbacks (retire p w1)

  unfoldable pub reject_cancel : ℕ → World D → World D
  reject_cancel p w = spawn p (w.heap p).cancel_reject_callbacks (modify p (set_status pending) w)

  unfoldable pub reject_creates : List ℕ → World D → World D
  reject_creates [] w = w
  reject_creates (p ∷ ps) w = reject_creates ps (reject_create p w)

  unfoldable pub reject_amends : List ℕ → World D → World D
  reject_amends [] w = w
  reject_amends (p ∷ ps) w = reject_amends ps (reject_amend p w)

  unfoldable pub reject_cancels : List ℕ → World D → World D
  reject_cancels [] w = w
  reject_cancels (p ∷ ps) w = reject_cancels ps (reject_cancel p w)

  unfoldable pub abandon_order : ℕ → World D → World D
  abandon_order p w = retire p (
      modify p
        (λ o.
          set_sent_timestamp o.last_operated_at
            (set_order_done_reason abandoned_reason (set_status done o)))
        w)
