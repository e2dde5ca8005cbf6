-- ===== src/Deals/Invariant/Handled.antt =====
-- The response and message handlers of domains/deals/dealing_handlers.go keep the books in order.
use lapuacore.Common.{
  ℕ, ◌≡◌, inl, inr, Bool, true, false, Option, none, some, String, arith, string_eq, if◌then◌else◌,
  Option-cases, ◌||◌,
}
use lapuacore.Deals.Errors.{Err, is_info, is_warn, is_http_request}
use lapuacore.Deals.Order.{OrderStatus}
use lapuacore.Deals.World.{World}
use lapuacore.Deals.Messages.{CreateOrderResp, AmendOrderResp, CancelOrderResp}
use lapuacore.Deals.Handlers.{
  keep_if, find_living, notice_error, notify, stop_accepting, create_succeeded, create_outcome,
  locked_create, handle_send_order_resp, refuse_amend, amend_outcome, locked_amend,
  handle_amend_order_resp, refuse_cancel, cancel_outcome, locked_cancel, handle_cancel_order_resp,
  is_sending, is_amending, is_canceling,
}
use lapuacore.Deals.Invariant.Books.{IsConsistent, kind, active_kind}
use lapuacore.Deals.Invariant.Outcomes.{
  IsUnderWay, reject_create-IsConsistent, reject_cancel-IsConsistent, reject_amend-IsConsistent,
  accept_create-IsConsistent, accept_amend-IsConsistent, accept_cancel-IsConsistent,
  abandon_order-IsConsistent,
}

pub sending_kind : (s : OrderStatus) → is_sending s ≡ true → kind s ≡ active_kind
unfolding is_sending
sending_kind s h = ground arith

pub amending_kind : (s : OrderStatus) → is_amending s ≡ true → kind s ≡ active_kind
unfolding is_amending
amending_kind s h = ground arith

pub canceling_kind : (s : OrderStatus) → is_canceling s ≡ true → kind s ≡ active_kind
unfolding is_canceling
canceling_kind s h = ground arith

module _ {D : Type 0} where
  pub branch :
      (b : Bool) (x y : World D)
      → IsConsistent x
      → IsConsistent y
      → IsConsistent (if b then x else y)
  branch true x y h k = h
  branch false x y h k = k

  pub notice_error-IsConsistent :
      (w : World D) (e : Err) → IsConsistent w → IsConsistent (notice_error e w)
  unfolding notice_error notify stop_accepting
  notice_error-IsConsistent w e v =
      branch (is_info e) _ _ v (branch (is_warn e || is_http_request e) _ _ v v)

module _ {D : Type 0} (w : World D) (v : IsConsistent w) where
  keep_if-active :
      (test : OrderStatus → Bool)
      → ((s : OrderStatus) → test s ≡ true → kind s ≡ active_kind)
      → (o : Option ℕ) (p : ℕ) → keep_if test w o ≡ some p
      → IsUnderWay w p
  unfolding keep_if
  keep_if-active test k none p e = cc
  keep_if-active test k (some q) p e = ground (arith, k (w.heap q).status)

  -- A found order is under way.
  find_living-active :
      (test : OrderStatus → Bool)
      → ((s : OrderStatus) → test s ≡ true → kind s ≡ active_kind)
      → (id : String) (p : ℕ) → find_living test id w ≡ some p
      → IsUnderWay w p
  unfolding find_living
  find_living-active test k id p e = keep_if-active test k _ p e

  create_outcome-IsConsistent :
      (err : Option Err) (p : ℕ) (resp : CreateOrderResp)
      → IsUnderWay w p
      → IsConsistent (create_outcome err p resp w)
  unfolding create_outcome create_succeeded
  create_outcome-IsConsistent (some e) p resp a =
      notice_error-IsConsistent _ e (reject_create-IsConsistent w v p a)
  create_outcome-IsConsistent none p resp a =
      branch _ _ _
        (accept_create-IsConsistent w v p a resp.public_id resp.arrived_at resp.confirmed_at) v

  -- `handleSendOrderResp`, whatever the response.
  pub handle_send_order_resp-IsConsistent :
      (resp : CreateOrderResp) (err : Option Err) → IsConsistent (handle_send_order_resp resp err w)
  unfolding handle_send_order_resp locked_create
  handle_send_order_resp-IsConsistent resp err =
      elim (Option-cases (find_living is_sending resp.order_id w)) [
        | inl e ↦ rw e v
        | inr (p, e) ↦ rw e (
            create_outcome-IsConsistent _ p resp
              (find_living-active is_sending sending_kind resp.order_id p e))
      ]

  refuse_amend-IsConsistent : (e : Err) (p : ℕ) → IsUnderWay w p → IsConsistent (refuse_amend e p w)
  unfolding refuse_amend
  refuse_amend-IsConsistent e p a =
      branch _ _ _ (abandon_order-IsConsistent w v p a)
        (notice_error-IsConsistent _ e (reject_amend-IsConsistent w v p a))

  amend_outcome-IsConsistent :
      (err : Option Err) (p : ℕ) (resp : AmendOrderResp D)
      → IsUnderWay w p
      → IsConsistent (amend_outcome err p resp w)
  unfolding amend_outcome
  amend_outcome-IsConsistent (some e) p resp a = refuse_amend-IsConsistent e p a
  amend_outcome-IsConsistent none p resp a =
      accept_amend-IsConsistent w v p a resp.detail resp.arrived_at resp.confirmed_at

  -- `handleAmendOrderResp`, whatever the response.
  pub handle_amend_order_resp-IsConsistent :
      (resp : AmendOrderResp D) (err : Option Err)
      → IsConsistent (handle_amend_order_resp resp err w)
  unfolding handle_amend_order_resp locked_amend
  handle_amend_order_resp-IsConsistent resp err =
      elim (Option-cases (find_living is_amending resp.order_id w)) [
        | inl e ↦ rw e v
        | inr (p, e) ↦ rw e (
            amend_outcome-IsConsistent _ p resp
              (find_living-active is_amending amending_kind resp.order_id p e))
      ]

  refuse_cancel-IsConsistent :
      (e : Err) (p : ℕ) → IsUnderWay w p → IsConsistent (refuse_cancel e p w)
  unfolding refuse_cancel
  refuse_cancel-IsConsistent e p a =
      branch _ _ _ (abandon_order-IsConsistent w v p a)
        (notice_error-IsConsistent _ e (reject_cancel-IsConsistent w v p a))

  cancel_outcome-IsConsistent :
      (err : Option Err) (p : ℕ) → IsUnderWay w p → IsConsistent (cancel_outcome err p w)
  unfolding cancel_outcome
  cancel_outcome-IsConsistent (some e) p a = refuse_cancel-IsConsistent e p a
  cancel_outcome-IsConsistent none p a = accept_cancel-IsConsistent w v p a

  -- `handleCancelOrderResp`, whatever the response.
  pub handle_cancel_order_resp-IsConsistent :
      (resp : CancelOrderResp) (err : Option Err)
      → IsConsistent (handle_cancel_order_resp resp err w)
  unfolding handle_cancel_order_resp locked_cancel
  handle_cancel_order_resp-IsConsistent resp err =
      elim (Option-cases (find_living is_canceling resp.order_id w)) [
        | inl e ↦ rw e v
        | inr (p, e) ↦ rw e (
            cancel_outcome-IsConsistent _ p
              (find_living-active is_canceling canceling_kind resp.order_id p e))
      ]
