-- ===== src/Deals/Handlers.antt =====
-- domains/deals/dealing_handlers.go: what the dealer does with the agent's responses and with the
-- messages of the private channels. A response handler looks the order up, and then takes the
-- order's lock; here no other goroutine runs between the two, and `Deals.Race` has the case where one
-- does.
use lapuacore.Common.{
  ℕ, Bool, true, false, ◌&&◌, ◌||◌, Option, none, some, List, [], ◌∷◌, String, if◌then◌else◌,
  string_eq,
}
use lapuacore.Mutex.Map.{Map, get, gets, get_keys}
use lapuacore.Domains.Commons.{OrderType, limit, limit_fok, limit_ioc, limit_maker}
use lapuacore.Deals.Errors.{Err, is_info, is_warn, is_http_request, is_order_is_not_exists}
use lapuacore.Deals.Order.{OrderStatus, sending, amending, canceling}
use lapuacore.Deals.Messages.{CreateOrderResp, AmendOrderResp, CancelOrderResp}
use lapuacore.Deals.World.{World, with_dealer}
use lapuacore.Deals.Outcome.{
  accept_create, accept_amend, accept_cancel, reject_create, reject_creates, reject_amend,
  reject_amends, reject_cancel, reject_cancels, abandon_order,
}

unfoldable pub is_sending : OrderStatus → Bool
is_sending sending = true
is_sending _ = false

unfoldable pub is_amending : OrderStatus → Bool
is_amending amending = true
is_amending _ = false

unfoldable pub is_canceling : OrderStatus → Bool
is_canceling canceling = true
is_canceling _ = false

-- What `handleSendOrderResp` does with a response that carries no error: a market order waits for
-- its fill.
unfoldable pub accepts_response : OrderType → Bool
accepts_response limit = true
accepts_response limit_fok = true
accepts_response limit_ioc = true
accepts_response limit_maker = true
accepts_response _ = false

-- `resp.Err`, where the call itself gave no error.
unfoldable pub first_error : Option Err → Option Err → Option Err
first_error (some e) resp_err = some e
first_error none resp_err = resp_err

module _ {D : Type 0} where
  -- `getSendingOrder` and its like: a living order in the status asked for.
  unfoldable pub keep_if : (OrderStatus → Bool) → World D → Option ℕ → Option ℕ
  keep_if test w none = none
  keep_if test w (some p) = if test (w.heap p).status then some p else none

  unfoldable pub find_living : (OrderStatus → Bool) → String → World D → Option ℕ
  unfolding keep_if
  find_living test id w = keep_if test w (get id w.dealer.living_orders)

  -- `getSendingOrders` and its like.
  unfoldable pub keep_all : (OrderStatus → Bool) → World D → List (Option ℕ) → List ℕ
  keep_all test w [] = []
  keep_all test w (none ∷ ps) = keep_all test w ps
  keep_all test w (some p ∷ ps) =
      let rest = keep_all test w ps in if test (w.heap p).status then p ∷ rest else rest

  unfoldable pub find_all_living : (OrderStatus → Bool) → List String → World D → List ℕ
  unfolding keep_all
  find_all_living test ids w = keep_all test w (gets ids w.dealer.living_orders)

  unfoldable pub notify : Err → World D → World D
  notify e w = record w { notices = e ∷ w.notices }

  unfoldable pub stop_accepting : World D → World D
  stop_accepting w = with_dealer (λ d. record d { accept_order = false }) w

  unfoldable pub notice_error : Err → World D → World D
  unfolding notify stop_accepting
  notice_error e w =
      if is_info e
      then w
      else if is_warn e || is_http_request e
      then notify e w
      else notify e (stop_accepting w)

  unfoldable pub create_succeeded : ℕ → CreateOrderResp → World D → World D
  create_succeeded p resp w =
      if is_sending (w.heap p).status && accepts_response (w.heap p).order_type
      then accept_create p resp.public_id resp.arrived_at resp.confirmed_at w
      else w

  -- The locked block of `handleSendOrderResp`. Both error cases do the same.
  unfoldable pub create_outcome : Option Err → ℕ → CreateOrderResp → World D → World D
  unfolding create_succeeded notice_error
  create_outcome (some e) p resp w = notice_error e (reject_create p w)
  create_outcome none p resp w = create_succeeded p resp w

  unfoldable pub locked_create : Option ℕ → CreateOrderResp → Option Err → World D → World D
  unfolding create_outcome first_error
  locked_create none resp err w = w
  locked_create (some p) resp err w = create_outcome (first_error err resp.err) p resp w

  unfoldable pub handle_send_order_resp : CreateOrderResp → Option Err → World D → World D
  unfolding locked_create find_living
  handle_send_order_resp resp err w =
      locked_create (find_living is_sending resp.order_id w) resp err w

  unfoldable pub refuse_amend : Err → ℕ → World D → World D
  unfolding notice_error
  refuse_amend e p w =
      if is_order_is_not_exists e then abandon_order p w else notice_error e (reject_amend p w)

  unfoldable pub amend_outcome : Option Err → ℕ → AmendOrderResp D → World D → World D
  unfolding refuse_amend
  amend_outcome (some e) p resp w = refuse_amend e p w
  amend_outcome none p resp w = accept_amend p resp.detail resp.arrived_at resp.confirmed_at w

  unfoldable pub locked_amend : Option ℕ → AmendOrderResp D → Option Err → World D → World D
  unfolding amend_outcome first_error
  locked_amend none resp err w = w
  locked_amend (some p) resp err w = amend_outcome (first_error err resp.err) p resp w

  unfoldable pub handle_amend_order_resp : AmendOrderResp D → Option Err → World D → World D
  unfolding locked_amend find_living
  handle_amend_order_resp resp err w =
      locked_amend (find_living is_amending resp.order_id w) resp err w

  unfoldable pub refuse_cancel : Err → ℕ → World D → World D
  unfolding notice_error
  refuse_cancel e p w =
      if is_order_is_not_exists e then abandon_order p w else notice_error e (reject_cancel p w)

  unfoldable pub cancel_outcome : Option Err → ℕ → World D → World D
  unfolding refuse_cancel
  cancel_outcome (some e) p w = refuse_cancel e p w
  cancel_outcome none p w = accept_cancel p w

  unfoldable pub locked_cancel : Option ℕ → CancelOrderResp → Option Err → World D → World D
  unfolding cancel_outcome first_error
  locked_cancel none resp err w = w
  locked_cancel (some p) resp err w = cancel_outcome (first_error err resp.err) p w

  unfoldable pub handle_cancel_order_resp : CancelOrderResp → Option Err → World D → World D
  unfolding locked_cancel find_living
  handle_cancel_order_resp resp err w =
      locked_cancel (find_living is_canceling resp.order_id w) resp err w

  -- The batch handlers: `resps[order.GetID()]`. The orders come from the keys of `resps`, so that
  -- the key is there.
  unfoldable pub answer_order :
      {R : Type 0} → (R → World D → World D) → Option R → World D → World D
  answer_order handle none w = w
  answer_order handle (some resp) w = handle resp w

  unfoldable pub each_resp :
      {R : Type 0} → (R → World D → World D) → Map String R → List ℕ → World D → World D
  unfolding answer_order
  each_resp handle resps [] w = w
  each_resp handle resps (p ∷ ps) w =
      each_resp handle resps ps (answer_order handle (get (w.heap p).id resps) w)

  unfoldable pub handle_send_orders_resp :
      Map String CreateOrderResp → Option Err → World D → World D
  unfolding each_resp handle_send_order_resp
  handle_send_orders_resp resps (some e) w =
      notice_error e (reject_creates (find_all_living is_sending (get_keys resps) w) w)
  handle_send_orders_resp resps none w =
      each_resp (λ resp. handle_send_order_resp resp none) resps
        (find_all_living is_sending (get_keys resps) w) w

  unfoldable pub handle_amend_orders_resp :
      Map String (AmendOrderResp D) → Option Err → World D → World D
  unfolding each_resp handle_amend_order_resp
  handle_amend_orders_resp resps (some e) w =
      notice_error e (reject_amends (find_all_living is_amending (get_keys resps) w) w)
  handle_amend_orders_resp resps none w =
      each_resp (λ resp. handle_amend_order_resp resp none) resps
        (find_all_living is_amending (get_keys resps) w) w

  unfoldable pub handle_cancel_orders_resp :
      Map String CancelOrderResp → Option Err → World D → World D
  unfolding each_resp handle_cancel_order_resp
  handle_cancel_orders_resp resps (some e) w =
      notice_error e (reject_cancels (find_all_living is_canceling (get_keys resps) w) w)
  handle_cancel_orders_resp resps none w =
      each_resp (λ resp. handle_cancel_order_resp resp none) resps
        (find_all_living is_canceling (get_keys resps) w) w
