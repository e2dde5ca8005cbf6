-- ===== src/Gateways/Agents/Failures.antt =====
-- HTTP failures of the agents of internal/gateways/exchanges/ and the dealer of domains/deals/, and what
-- becomes of an order that is being canceled.
use lapuacore.Common.{
  ℕ, ◌≡◌, refl, Bool, true, false, not, ◌||◌, Option, some, String, ◌==◌, nat_eq, string_eq,
  if◌then◌else◌, arith, Bool-cases, inl, inr,
}
use lapuacore.Deals.Errors.{Err, error, is_info, is_warn, is_http_request}
use lapuacore.Deals.Messages.{CreateOrderResp, CancelOrderResp}
use lapuacore.Deals.World.{World, modify, spawn}
use lapuacore.Deals.Handlers.{
  is_sending, is_canceling, find_living, handle_send_order_resp, locked_create, create_outcome,
  first_error, notice_error, notify, stop_accepting, handle_cancel_order_resp, locked_cancel,
}
use lapuacore.Deals.Outcome.{reject_create, retire}
use lapuacore.Gateways.Agents.{unreadable, decoded, Reply, no_response, response, status_ok, Texts}
use lapuacore.Gateways.Agents.Bybit
use lapuacore.Gateways.Agents.Coinex
use lapuacore.Gateways.Agents.Answers.{is_settled, cancel_outcome-settles}

-- No response, or a status other than 200.
abbrev pub is_http_failure {ℓ} : {B : Type ℓ} → Reply B → Bool
is_http_failure (no_response e) = true
is_http_failure (response status body) = not (status == status_ok)

-- An error that lets the dealer go on.
abbrev pub is_tolerated : Err → Bool
is_tolerated e = is_info e || (is_warn e || is_http_request e)

module _ {D : Type 0} (w : World D) (p : ℕ) where
  notice_error-accepts :
      (e : Err) (u : World D)
      → (notice_error e u).dealer.accept_order
        ≡ (if is_tolerated e then u.dealer.accept_order else false)
  unfolding notice_error notify stop_accepting
  notice_error-accepts e u = ground arith

  failed-accepts :
      (resp : CreateOrderResp) (e : Err)
      → find_living is_sending resp.order_id w ≡ some p
      → (handle_send_order_resp resp (some e) w).dealer.accept_order
        ≡ (if is_tolerated e then w.dealer.accept_order else false)
  unfolding handle_send_order_resp locked_create create_outcome reject_create retire spawn modify
      first_error
  failed-accepts resp e f = rw f (notice_error-accepts e (reject_create p w))

  module _ (t : Texts) (id : String) (f : find_living is_sending id w ≡ some p) where
    bybit :
        (measured : Bool) (sent received : ℕ) (b : Reply Bybit.BaseRespBody)
        → is_http_failure b ≡ true
        → let answer = Bybit.create_answer t measured sent received id b in
          (handle_send_order_resp answer.0 answer.1 w).dealer.accept_order ≡ false
    unfolding Bybit.create_answer is_info is_warn is_http_request
    bybit measured sent received (no_response e) h = failed-accepts _ _ f
    bybit measured sent received (response status body) h =
        elim (Bool-cases (status == status_ok)) [
          | inl k ↦ ground (arith, h, k)
          | inr k ↦ rw k (failed-accepts _ _ f)
        ]

    coinex :
        (now : ℕ) (c : Reply Coinex.OrderRespBody)
        → is_http_failure c ≡ true
        → (resp : CreateOrderResp) × (err : Option Err) × (Coinex.create_answer t id now c
            ≡ some (resp, err))
          × ((handle_send_order_resp resp err w).dealer.accept_order ≡ w.dealer.accept_order)
    unfolding Coinex.create_answer error is_info is_warn is_http_request
    coinex now (no_response e) h = (_, _, refl, failed-accepts _ _ f)
    coinex now (response status body) h = elim (Bool-cases (status == status_ok)) [
      | inl k ↦ ground (arith, h, k)
      | inr k ↦ rw k (_, _, refl, failed-accepts _ _ f)
    ]

    -- An order that could not be delivered to Bybit, for want of a connection or by an HTTP status,
    -- stops the dealer; one that could not be delivered to CoinEx for the same reasons leaves it
    -- accepting orders as before.
    pub http_failure-accept_order :
        (measured : Bool) (sent received : ℕ) (b : Reply Bybit.BaseRespBody)
        (c : Reply Coinex.OrderRespBody)
        → is_http_failure b ≡ true
        → is_http_failure c ≡ true
        → let answer = Bybit.create_answer t measured sent received id b in
          ((handle_send_order_resp answer.0 answer.1 w).dealer.accept_order ≡ false)
          × ((resp : CreateOrderResp) × (err : Option Err) × (Coinex.create_answer t id received c
                ≡ some (resp, err))
              × ((handle_send_order_resp resp err w).dealer.accept_order ≡ w.dealer.accept_order))
    http_failure-accept_order measured sent received b c x y =
        (bybit measured sent received b x, coinex received c y)

  bybit_cancel_id :
      (t : Texts) (measured : Bool) (sent received : ℕ) (id : String) (b : Reply Bybit.BaseRespBody)
      → (Bybit.cancel_answer t measured sent received id b).0.order_id ≡ id
  unfolding Bybit.cancel_answer
  bybit_cancel_id t measured sent received id (no_response e) = refl
  bybit_cancel_id t measured sent received id (response status (unreadable e)) = ground arith
  bybit_cancel_id t measured sent received id (response status (decoded r)) = ground arith

  coinex_cancel_id :
      (t : Texts) (id : String) (c : Reply Coinex.OrderRespBody)
      → (Coinex.cancel_answer t id c).0.order_id ≡ id
  unfolding Coinex.cancel_answer Coinex.cancel_resp
  coinex_cancel_id t id (no_response e) = refl
  coinex_cancel_id t id (response status (unreadable e)) = ground arith
  coinex_cancel_id t id (response status (decoded r)) = ground arith

  cancel-settles :
      (resp : CancelOrderResp) (err : Option Err) (id : String)
      → resp.order_id ≡ id
      → find_living is_canceling id w ≡ some p
      → is_settled ((handle_cancel_order_resp resp err w).heap p).status ≡ true
  unfolding handle_cancel_order_resp locked_cancel
  cancel-settles resp err id i f = rw (i, f) (cancel_outcome-settles (first_error err resp.err) p w)

  -- An order in Canceling is Pending again or Done as soon as the dealer has the agent's response,
  -- whatever came back from either exchange.
  pub cancel_answer-settles :
      (t : Texts) (measured : Bool) (sent received : ℕ) (id : String) (b : Reply Bybit.BaseRespBody)
      (c : Reply Coinex.OrderRespBody)
      → find_living is_canceling id w ≡ some p
      → let x = Bybit.cancel_answer t measured sent received id b in
        let y = Coinex.cancel_answer t id c in
        (is_settled ((handle_cancel_order_resp x.0 x.1 w).heap p).status ≡ true)
        × (is_settled ((handle_cancel_order_resp y.0 y.1 w).heap p).status ≡ true)
  cancel_answer-settles t measured sent received id b c f = (
    cancel-settles _ _ id (bybit_cancel_id t measured sent received id b) f,
    cancel-settles _ _ id (coinex_cancel_id t id c) f,
  )
