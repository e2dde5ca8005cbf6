-- ===== src/Gateways/Agents/Bybit.antt =====
-- internal/gateways/exchanges/bybit/agent/agent.go and translators/order.go: what is sent to Bybit, and
-- the response that a handler gets for each reply. `RecordLatency` is an entry of a list, with the two
-- times that it subtracts.
use lapuacore.Common.{
  ℕ, Bool, true, false, Option, none, some, List, [], ◌∷◌, String, ◌==◌, nat_eq, if◌then◌else◌,
}
use lapuacore.Domains.Decimal.{Decimal}
use lapuacore.Deals.Errors.{Err, foreign, late_limit_error}
use lapuacore.Deals.Order.{Order, AmendDetail}
use lapuacore.Deals.Messages.{CreateOrderResp, AmendOrderResp, CancelOrderResp}
use lapuacore.Gateways.RateLimiter.{
  RateLimiter, group_create_order, group_cancel_order, group_amend_order,
}
use lapuacore.Gateways.Bybit.{translate_side_to_dto, translate_error}
use lapuacore.Gateways.Agents.{
  Body, unreadable, decoded, Reply, no_response, response, status_ok, ret_code_ok, Texts,
  start_request, empty_create, empty_amend,
}

pub record BaseRespBody : Type 0 where
  pub ret_code : ℕ
  pub ret_msg : String
  pub timestamp_ms : ℕ

-- `OrderDto` with its `RawOrderDto`.
pub record OrderDto : Type 0 where
  pub category : String
  pub order_link_id : String
  pub symbol : String
  pub order_type : String
  pub price : Option String
  pub qty : String
  pub side : String

pub record CancelDto : Type 0 where
  pub category : String
  pub order_link_id : String
  pub symbol : String

pub record AmendDetailDto : Type 0 where
  pub order_link_id : String
  pub category : String
  pub symbol : String
  pub price : String
  pub qty : String

-- `product` and `symbol` are what `Product` and `Name` of the symbol give; `text` is `String` of the
-- decimals.
module _ {D : Type 0} ⦃d : Decimal D⦄ (text : D → String) (product symbol : String) where
  unfoldable pub order_dto : Order D → OrderDto
  unfolding translate_side_to_dto
  order_dto o =
      let raw : OrderDto = record {
        category = product;
        order_link_id = o.id;
        symbol = symbol;
        order_type = "Market";
        price = none;
        qty = text o.qty;
        side = translate_side_to_dto o.side;
      } in
      if d.is_positive o.price
      then record raw { order_type = "Limit"; price = some (text o.price) }
      else raw

  unfoldable pub cancel_dto : String → CancelDto
  cancel_dto id = record { category = product; order_link_id = id; symbol = symbol }

  unfoldable pub amend_detail_dto : String → AmendDetail D → AmendDetailDto
  amend_detail_dto id detail = record {
    order_link_id = id;
    category = product;
    symbol = symbol;
    price = text detail.price;
    qty = text detail.qty;
  }

-- The parts that the caller waits for.
unfoldable pub start_send : Bool → Option Err → ℕ → RateLimiter ℕ → RateLimiter ℕ × Option Err
unfolding start_request
start_send handled prepared now l =
    start_request handled late_limit_error prepared group_create_order 1 now l

unfoldable pub start_cancel : Bool → Option Err → ℕ → RateLimiter ℕ → RateLimiter ℕ × Option Err
unfolding start_request
start_cancel handled prepared now l =
    start_request handled late_limit_error prepared group_cancel_order 1 now l

unfoldable pub start_amend : Bool → Option Err → ℕ → RateLimiter ℕ → RateLimiter ℕ × Option Err
unfolding start_request
start_amend handled prepared now l =
    start_request handled late_limit_error prepared group_amend_order 1 now l

-- `SendOrders`, `CancelOrders` and `AmendOrders`.
unfoldable pub start_batch : RateLimiter ℕ → RateLimiter ℕ × Option Err
start_batch l = (l, some (foreign "not implemented"))

pub record Latency : Type 0 where
  pub name : String
  pub since : ℕ
  pub until : ℕ

abbrev pub latencies : Bool → String → String → String → ℕ → ℕ → ℕ → List Latency
latencies false outbound return round_trip sent arrived received = []
latencies true outbound return round_trip sent arrived received =
    record { name = outbound; since = sent; until = arrived }
    ∷ record { name = return; since = arrived; until = received }
    ∷ record { name = round_trip; since = sent; until = received }
    ∷ []

-- What a handler is called with, and the latencies recorded before. `sent` and `received` are the times
-- around `Do`, and `measured` says whether there is a measurer.
module _ (t : Texts) (measured : Bool) (sent received : ℕ) where
  abbrev create_body : String → Body BaseRespBody → CreateOrderResp × Option Err × List Latency
  create_body id (unreadable e) = (empty_create id, some (foreign (t.bad_body e)), [])
  create_body id (decoded r) =
      if r.ret_code == ret_code_ok
      then (
        record (empty_create id) { arrived_at = some r.timestamp_ms; confirmed_at = some received },
        none,
        latencies measured "bybit_create_order_outbound_ms" "bybit_create_order_return_ms"
            "bybit_create_order_round_trip_ms" sent r.timestamp_ms received,
      )
      else (
        record (empty_create id) { err = some (translate_error t.err_msg r.ret_code r.ret_msg) },
        none,
        [],
      )

  unfoldable pub create_answer :
      String → Reply BaseRespBody → CreateOrderResp × Option Err × List Latency
  unfolding translate_error
  create_answer id (no_response e) = (empty_create id, some (foreign (t.do_failed e)), [])
  create_answer id (response status body) =
      if status == status_ok
      then create_body id body
      else (empty_create id, some (foreign (t.bad_status status)), [])

  abbrev cancel_body : String → Body BaseRespBody → CancelOrderResp × Option Err × List Latency
  cancel_body id (unreadable e) =
      (record { order_id = id; err = none }, some (foreign (t.bad_body e)), [])
  cancel_body id (decoded r) =
      if r.ret_code == ret_code_ok
      then (
        record { order_id = id; err = none },
        none,
        latencies measured "bybit_cancel_order_outbound_ms" "bybit_cancel_order_return_ms"
            "bybit_cancel_order_round_trip_ms" sent r.timestamp_ms received,
      )
      else (
        record { order_id = id; err = some (translate_error t.err_msg r.ret_code r.ret_msg) },
        none,
        [],
      )

  unfoldable pub cancel_answer :
      String → Reply BaseRespBody → CancelOrderResp × Option Err × List Latency
  unfolding translate_error
  cancel_answer id (no_response e) =
      (record { order_id = id; err = none }, some (foreign (t.do_failed e)), [])
  cancel_answer id (response status body) =
      if status == status_ok
      then cancel_body id body
      else (record { order_id = id; err = none }, some (foreign (t.bad_status status)), [])

  module _ {D : Type 0} where
    abbrev amend_body :
        String → AmendDetail D → Body BaseRespBody → AmendOrderResp D × Option Err × List Latency
    amend_body id detail (unreadable e) = (empty_amend id detail, some (foreign (t.bad_body e)), [])
    amend_body id detail (decoded r) =
        if r.ret_code == ret_code_ok
        then (
          record (empty_amend id detail) {
            arrived_at = some r.timestamp_ms;
            confirmed_at = some received;
          },
          none,
          latencies measured "bybit_amend_order_outbound_ms" "bybit_amend_order_return_ms"
              "bybit_amend_order_round_trip_ms" sent r.timestamp_ms received,
        )
        else (
          record (empty_amend id detail) {
            err = some (translate_error t.err_msg r.ret_code r.ret_msg);
          },
          none,
          [],
        )

    unfoldable pub amend_answer :
        String → AmendDetail D → Reply BaseRespBody → AmendOrderResp D × Option Err × List Latency
    unfolding translate_error
    amend_answer id detail (no_response e) =
        (empty_amend id detail, some (foreign (t.do_failed e)), [])
    amend_answer id detail (response status body) =
        if status == status_ok
        then amend_body id detail body
        else (empty_amend id detail, some (foreign (t.bad_status status)), [])
