-- ===== src/Gateways/Agents/Answers.antt =====
-- The agents of internal/gateways/exchanges/ with the dealer of domains/deals/: what becomes of an order,
-- and of the dealer, for each reply of an exchange.
use lapuacore.Common.{
  ℕ, ◌≡◌, refl, ap, ◌∙◌, Bool, true, false, Option, none, some, String, ◌==◌, nat_eq, string_eq,
  if◌then◌else◌, is_some, arith, Bool-cases, inl, inr,
}
use lapuacore.Mutex.Map.{get}
use lapuacore.Deals.Errors.{Err, is_order_is_not_exists}
use lapuacore.Deals.Order.{
  OrderStatus, pending, done, rejected_reason, set_order_done_reason, set_status,
  set_confirm_timestamps, set_sent_timestamp, set_public_id,
}
use lapuacore.Deals.Messages.{CreateOrderResp}
use lapuacore.Deals.World.{World, spawn}
use lapuacore.Deals.Handlers.{
  is_sending, accepts_response, find_living, keep_if, handle_send_order_resp, locked_create,
  create_outcome, create_succeeded, cancel_outcome, refuse_cancel, first_error, notice_error,
  notify, stop_accepting,
}
use lapuacore.Deals.Outcome.{
  accept_create, reject_create, retire, accept_cancel, reject_cancel, abandon_order,
}
use lapuacore.Gateways.Agents.{
  Body, unreadable, decoded, Reply, no_response, response, status_ok, ret_code_ok, Texts,
}
use lapuacore.Deals.Invariant.Outcomes.{modify_self}
use lapuacore.Gateways.Agents.Bybit
use lapuacore.Gateways.Agents.Coinex

-- `Pending` or `Done`.
abbrev pub is_settled : OrderStatus → Bool
is_settled pending = true
is_settled done = true
is_settled _ = false

-- The code of success comes with the data of the order.
abbrev pub is_complete : Coinex.OrderRespBody → Bool
is_complete r = if r.code == ret_code_ok then is_some r.resp_data else true

abbrev pub is_complete_body : Body Coinex.OrderRespBody → Bool
is_complete_body (unreadable e) = true
is_complete_body (decoded r) = is_complete r

abbrev pub is_complete_reply : Reply Coinex.OrderRespBody → Bool
is_complete_reply (no_response e) = true
is_complete_reply (response status body) =
    if status == status_ok then is_complete_body body else true

module _ {D : Type 0} where
  notice_error-heap : (e : Err) (w : World D) → (notice_error e w).heap ≡ w.heap
  unfolding notice_error notify stop_accepting
  notice_error-heap e w = ground arith

  found_by :
      (test : OrderStatus → Bool) (o : Option ℕ) (p : ℕ) (w : World D)
      → keep_if test w o ≡ some p
      → test (w.heap p).status ≡ true
  unfolding keep_if
  found_by test none p w e = ground arith
  found_by test (some q) p w e = grind arith

  found :
      (test : OrderStatus → Bool) (id : String) (p : ℕ) (w : World D)
      → find_living test id w ≡ some p
      → test (w.heap p).status ≡ true
  unfolding find_living
  found test id p w e = found_by test (get id w.dealer.living_orders) p w e

  reject_create-status : (p : ℕ) (w : World D) → ((reject_create p w).heap p).status ≡ done
  unfolding reject_create retire spawn set_order_done_reason set_status
  reject_create-status p w =
      ap (λ o. o.status)
        (modify_self w p (λ o. set_order_done_reason rejected_reason (set_status done o)))

  accept_create-status :
      (p : ℕ) (public_id : String) (arrived confirmed : Option ℕ) (w : World D)
      → ((accept_create p public_id arrived confirmed w).heap p).status ≡ pending
  unfolding accept_create spawn set_confirm_timestamps set_sent_timestamp set_status set_public_id
  accept_create-status p public_id arrived confirmed w =
      ap (λ o. o.status) (modify_self w p _) ∙ ground arith

  outcome-settles :
      (e : Option Err) (p : ℕ) (resp : CreateOrderResp) (w : World D)
      → is_sending (w.heap p).status ≡ true
      → accepts_response (w.heap p).order_type ≡ true
      → is_settled ((create_outcome e p resp w).heap p).status ≡ true
  unfolding create_outcome create_succeeded
  outcome-settles (some e) p resp w s a =
      rw (notice_error-heap e (reject_create p w), reject_create-status p w) refl
  outcome-settles none p resp w s a =
      rw (s, a)
        (rw (accept_create-status p resp.public_id resp.arrived_at resp.confirmed_at w) refl)

  -- A response of an order that is under way settles it.
  create-settles :
      (w : World D) (p : ℕ) (resp : CreateOrderResp) (err : Option Err)
      → find_living is_sending resp.order_id w ≡ some p
      → is_sending (w.heap p).status ≡ true
      → accepts_response (w.heap p).order_type ≡ true
      → is_settled ((handle_send_order_resp resp err w).heap p).status ≡ true
  unfolding handle_send_order_resp locked_create
  create-settles w p resp err f s a = rw f (outcome-settles (first_error err resp.err) p resp w s a)

  pub cancel_outcome-settles :
      (e : Option Err) (p : ℕ) (w : World D)
      → is_settled ((cancel_outcome e p w).heap p).status ≡ true
  unfolding cancel_outcome refuse_cancel accept_cancel reject_cancel abandon_order retire spawn
      set_status set_order_done_reason set_sent_timestamp set_confirm_timestamps
  cancel_outcome-settles none p w = ap (λ o. is_settled o.status) (modify_self w p _)
  cancel_outcome-settles (some e) p w = elim (Bool-cases (is_order_is_not_exists e)) [
    | inl h ↦ rw h (ap (λ o. is_settled o.status) (modify_self w p _))
    | inr h ↦ rw h (
        ap (λ f. is_settled (f p).status) (notice_error-heap e (reject_cancel p w))
        ∙ ap (λ o. is_settled o.status) (modify_self w p _))
  ]

module _ (t : Texts) where
  bybit_create_id :
      (measured : Bool) (sent received : ℕ) (id : String) (b : Reply Bybit.BaseRespBody)
      → (Bybit.create_answer t measured sent received id b).0.order_id ≡ id
  unfolding Bybit.create_answer
  bybit_create_id measured sent received id (no_response e) = refl
  bybit_create_id measured sent received id (response status (unreadable e)) = ground arith
  bybit_create_id measured sent received id (response status (decoded r)) = ground arith

  coinex_data :
      (id : String) (now : ℕ) (o : Option Coinex.OrderRespData)
      → is_some o ≡ true
      → (resp : CreateOrderResp) × (Coinex.created t id now o ≡ some resp) × (resp.order_id ≡ id)
  coinex_data id now none h = ground arith
  coinex_data id now (some x) h = (_, refl, refl)

  pub coinex_created :
      (id : String) (now : ℕ) (r : Coinex.OrderRespBody)
      → is_complete r ≡ true
      → (resp : CreateOrderResp) × (Coinex.create_resp t id now r ≡ some resp)
        × (resp.order_id ≡ id)
  unfolding Coinex.create_resp
  coinex_created id now r c = elim (Bool-cases (r.code == ret_code_ok)) [
    | inl e ↦ rw e (coinex_data id now r.resp_data (ground (arith, c, e)))
    | inr e ↦ rw e (_, refl, refl)
  ]

  coinex_body :
      (id : String) (now : ℕ) (body : Body Coinex.OrderRespBody)
      → is_complete_body body ≡ true
      → (resp : CreateOrderResp) × (err : Option Err) × (Coinex.create_body t id now body
          ≡ some (resp, err))
        × (resp.order_id ≡ id)
  coinex_body id now (unreadable e) h = (_, _, refl, refl)
  coinex_body id now (decoded r) h =
      let (resp, e, i) = coinex_created id now r h in (resp, none, ap (Coinex.without_error t) e, i)

  coinex_create_total :
      (id : String) (now : ℕ) (c : Reply Coinex.OrderRespBody)
      → is_complete_reply c ≡ true
      → (resp : CreateOrderResp) × (err : Option Err) × (Coinex.create_answer t id now c
          ≡ some (resp, err))
        × (resp.order_id ≡ id)
  unfolding Coinex.create_answer
  coinex_create_total id now (no_response e) h = (_, _, refl, refl)
  coinex_create_total id now (response status body) h = elim (Bool-cases (status == status_ok)) [
    | inl e ↦ rw e (coinex_body id now body (ground (arith, h, e)))
    | inr e ↦ rw e (_, _, refl, refl)
  ]

  module _ {D : Type 0} (w : World D) (p : ℕ) (id : String) where
    -- An order in Sending of a type that does not wait for a fill is Pending or Done as soon as the dealer
    -- has the agent's response, whatever came back from the exchange: no connection, an HTTP status, an
    -- unreadable body, an error code or success. For CoinEx there is a response unless the code of
    -- success comes without the data of the order.
    pub create_answer-settles :
        (measured : Bool) (sent received : ℕ) (b : Reply Bybit.BaseRespBody)
        (c : Reply Coinex.OrderRespBody)
        → find_living is_sending id w ≡ some p
        → accepts_response (w.heap p).order_type ≡ true
        → is_complete_reply c ≡ true
        → let answer = Bybit.create_answer t measured sent received id b in
          (is_settled ((handle_send_order_resp answer.0 answer.1 w).heap p).status ≡ true)
          × ((resp : CreateOrderResp) × (err : Option Err) × (Coinex.create_answer t id received c
                ≡ some (resp, err))
              × (is_settled ((handle_send_order_resp resp err w).heap p).status ≡ true))
    create_answer-settles measured sent received b c f a h =
        let settles : (resp : CreateOrderResp) (err : Option Err)
            → resp.order_id ≡ id
            → is_settled ((handle_send_order_resp resp err w).heap p).status ≡ true =
          λ resp err i.
            create-settles w p resp err (ap (λ k. find_living is_sending k w) i ∙ f)
              (found is_sending id p w f) a in
        let (resp, err, e, i) = coinex_create_total id received c h in
        (
          settles _ _ (bybit_create_id measured sent received id b),
          (resp, err, e, settles resp err i),
        )
