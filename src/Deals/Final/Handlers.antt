-- ===== src/Deals/Final/Handlers.antt =====
-- The handlers of domains/deals/dealing_handlers.go leave a done order alone.
use lapuacore.Common.{
  ℕ, ◌≡◌, ◌≢◌, inl, inr, Bool, true, ◌&&◌, ◌||◌, Option, none, some, List, [], ◌∷◌, String,
  string_eq, All, All-map, Bool-cases,
}
use lapuacore.Mutex.Map.{Map, get, get_keys}
use lapuacore.Deals.Errors.{Err, is_info, is_warn, is_http_request, is_order_is_not_exists}
use lapuacore.Deals.Order.{Order, OrderStatus, done}
use lapuacore.Deals.World.{World}
use lapuacore.Deals.Messages.{CreateOrderResp, AmendOrderResp, CancelOrderResp}
use lapuacore.Deals.Handlers.{
  is_sending, is_amending, is_canceling, accepts_response, first_error, keep_if, find_living,
  find_all_living, notify, stop_accepting, notice_error, create_succeeded, create_outcome,
  locked_create, handle_send_order_resp, refuse_amend, amend_outcome, locked_amend,
  handle_amend_order_resp, refuse_cancel, cancel_outcome, locked_cancel, handle_cancel_order_resp,
  answer_order, each_resp, handle_send_orders_resp, handle_amend_orders_resp,
  handle_cancel_orders_resp,
}
use lapuacore.Deals.Invariant.Books.{kind, active_kind}
use lapuacore.Deals.Invariant.Handled.{sending_kind, amending_kind, canceling_kind}
use lapuacore.Deals.Invariant.Batches.{find_all_living-active}
use lapuacore.Deals.Final.Held.{
  Held, branch, apart-active, reject_create-Held, reject_creates-Held, reject_cancel-Held,
  reject_cancels-Held, reject_amend-Held, reject_amends-Held, abandon_order-Held,
  accept_create-Held, accept_amend-Held, accept_cancel-Held,
}

module _ {D : Type 0} {p : ℕ} {o : Order D} where
  notice_error-Held : (e : Err) (w : World D) → Held p o w → Held p o (notice_error e w)
  unfolding notice_error notify stop_accepting
  notice_error-Held e w h =
      branch (is_info e) _ _ h (branch (is_warn e || is_http_request e) _ _ h h)

  module _ (w : World D) (q : ℕ) (n : q ≢ p) (h : Held p o w) where
    create_outcome-Held : (e : Option Err) (r : CreateOrderResp) → Held p o (create_outcome e q r w)
    unfolding create_outcome create_succeeded
    create_outcome-Held none r =
        branch (is_sending (w.heap q).status && accepts_response (w.heap q).order_type) _ _
          (accept_create-Held w q n h r.public_id r.arrived_at r.confirmed_at) h
    create_outcome-Held (some e) r = notice_error-Held e _ (reject_create-Held w q n h)

    amend_outcome-Held : (e : Option Err) (r : AmendOrderResp D) → Held p o (amend_outcome e q r w)
    unfolding amend_outcome refuse_amend
    amend_outcome-Held none r = accept_amend-Held w q n h r.detail r.arrived_at r.confirmed_at
    amend_outcome-Held (some e) r =
        branch (is_order_is_not_exists e) _ _ (abandon_order-Held w q n h)
          (notice_error-Held e _ (reject_amend-Held w q n h))

    cancel_outcome-Held : (e : Option Err) → Held p o (cancel_outcome e q w)
    unfolding cancel_outcome refuse_cancel
    cancel_outcome-Held none = accept_cancel-Held w q n h
    cancel_outcome-Held (some e) =
        branch (is_order_is_not_exists e) _ _ (abandon_order-Held w q n h)
          (notice_error-Held e _ (reject_cancel-Held w q n h))

  -- A handler that looks an order up, in a status of orders under way.
  module _ (final : o.status ≡ done) where
    found :
        (test : OrderStatus → Bool)
        → ((s : OrderStatus) → test s ≡ true → kind s ≡ active_kind)
        → (f : Option ℕ → World D) (w : World D) → Held p o w
        → Held p o (f none)
        → ((q : ℕ) → q ≢ p → Held p o (f (some q)))
        → (x : Option ℕ) → Held p o (f (keep_if test w x))
    unfolding keep_if
    found test k f w h a b none = a
    found test k f w h a b (some q) = elim (Bool-cases (test (w.heap q).status)) [
      | inl e ↦ rw e (b q (apart-active w h final q (k (w.heap q).status e)))
      | inr e ↦ rw e a
    ]

    pub handle_send_order_resp-Held :
        (r : CreateOrderResp) (e : Option Err) (w : World D)
        → Held p o w
        → Held p o (handle_send_order_resp r e w)
    unfolding handle_send_order_resp find_living locked_create
    handle_send_order_resp-Held r e w h =
        found is_sending sending_kind (λ x. locked_create x r e w) w h h
          (λ q n. create_outcome-Held w q n h (first_error e r.err) r)
          (get r.order_id w.dealer.living_orders)

    pub handle_amend_order_resp-Held :
        (r : AmendOrderResp D) (e : Option Err) (w : World D)
        → Held p o w
        → Held p o (handle_amend_order_resp r e w)
    unfolding handle_amend_order_resp find_living locked_amend
    handle_amend_order_resp-Held r e w h =
        found is_amending amending_kind (λ x. locked_amend x r e w) w h h
          (λ q n. amend_outcome-Held w q n h (first_error e r.err) r)
          (get r.order_id w.dealer.living_orders)

    pub handle_cancel_order_resp-Held :
        (r : CancelOrderResp) (e : Option Err) (w : World D)
        → Held p o w
        → Held p o (handle_cancel_order_resp r e w)
    unfolding handle_cancel_order_resp find_living locked_cancel
    handle_cancel_order_resp-Held r e w h =
        found is_canceling canceling_kind (λ x. locked_cancel x r e w) w h h
          (λ q n. cancel_outcome-Held w q n h (first_error e r.err))
          (get r.order_id w.dealer.living_orders)

    answer_order-Held :
        {R : Type 0} (handle : R → World D → World D)
        → ((r : R) (w : World D) → Held p o w → Held p o (handle r w))
        → (x : Option R) (w : World D) → Held p o w
        → Held p o (answer_order handle x w)
    unfolding answer_order
    answer_order-Held handle k none w h = h
    answer_order-Held handle k (some r) w h = k r w h

    -- `handle…Resps`: the orders were under way when they were looked up, so that none is this one.
    each_resp-Held :
        {R : Type 0} (handle : R → World D → World D) (resps : Map String R)
        → ((r : R) (w : World D) → Held p o w → Held p o (handle r w))
        → (qs : List ℕ) (w : World D) → Held p o w
        → Held p o (each_resp handle resps qs w)
    unfolding each_resp
    each_resp-Held handle resps k [] w h = h
    each_resp-Held handle resps k (q ∷ qs) w h =
        each_resp-Held handle resps k qs _
          (answer_order-Held handle k (get (w.heap q).id resps) w h)

    found_all :
        (test : OrderStatus → Bool)
        → ((s : OrderStatus) → test s ≡ true → kind s ≡ active_kind)
        → (w : World D) (ids : List String) → Held p o w
        → All (λ q. q ≢ p) (find_all_living test ids w)
    found_all test k w ids h =
        All-map _ (λ q. q ≢ p) (find_all_living test ids w) (λ q a. apart-active w h final q a)
          (find_all_living-active test k w ids)

    pub handle_send_orders_resp-Held :
        (rs : Map String CreateOrderResp) (e : Option Err) (w : World D)
        → Held p o w
        → Held p o (handle_send_orders_resp rs e w)
    unfolding handle_send_orders_resp
    handle_send_orders_resp-Held rs none w h =
        each_resp-Held (λ r. handle_send_order_resp r none) rs
          (λ r u. handle_send_order_resp-Held r none u) (find_all_living is_sending (get_keys rs) w)
          w h
    handle_send_orders_resp-Held rs (some e) w h =
        notice_error-Held e _
          (reject_creates-Held _ w (found_all is_sending sending_kind w (get_keys rs) h) h)

    pub handle_amend_orders_resp-Held :
        (rs : Map String (AmendOrderResp D)) (e : Option Err) (w : World D)
        → Held p o w
        → Held p o (handle_amend_orders_resp rs e w)
    unfolding handle_amend_orders_resp
    handle_amend_orders_resp-Held rs none w h =
        each_resp-Held (λ r. handle_amend_order_resp r none) rs
          (λ r u. handle_amend_order_resp-Held r none u)
          (find_all_living is_amending (get_keys rs) w) w h
    handle_amend_orders_resp-Held rs (some e) w h =
        notice_error-Held e _
          (reject_amends-Held _ w (found_all is_amending amending_kind w (get_keys rs) h) h)

    pub handle_cancel_orders_resp-Held :
        (rs : Map String CancelOrderResp) (e : Option Err) (w : World D)
        → Held p o w
        → Held p o (handle_cancel_orders_resp rs e w)
    unfolding handle_cancel_orders_resp
    handle_cancel_orders_resp-Held rs none w h =
        each_resp-Held (λ r. handle_cancel_order_resp r none) rs
          (λ r u. handle_cancel_order_resp-Held r none u)
          (find_all_living is_canceling (get_keys rs) w) w h
    handle_cancel_orders_resp-Held rs (some e) w h =
        notice_error-Held e _
          (reject_cancels-Held _ w (found_all is_canceling canceling_kind w (get_keys rs) h) h)
