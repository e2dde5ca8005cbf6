-- ===== src/Gateways/Agents/Coinex.antt =====
-- internal/gateways/exchanges/coinex/agent/agent.go, translators/order.go and dtos/: what is sent to
-- CoinEx, and the response that a handler gets for each reply. A missing `Data` behind the code of
-- success is a nil pointer, and a panic: `none`.
pub mod Batches
pub mod Each
use lapuacore.Common.{
  ℕ, Bool, true, false, Option, none, some, List, [], ◌∷◌, map, String, ◌==◌, nat_eq, length,
  if◌then◌else◌,
}
use lapuacore.Domains.Commons.{is_pricable}
use lapuacore.Deals.Errors.{Err, error, foreign, http_request_error}
use lapuacore.Deals.Order.{Order, AmendDetail}
use lapuacore.Deals.Messages.{CreateOrderResp, AmendOrderResp, CancelOrderResp}
use lapuacore.Gateways.RateLimiter.{RateLimiter, group_order, group_cancel}
use lapuacore.Gateways.Coinex.{translate_side_to_dto, translate_order_type_to_dto, translate_error}
use lapuacore.Gateways.Agents.{
  Body, unreadable, decoded, Reply, no_response, response, status_ok, ret_code_ok, Texts,
  start_request, empty_create, empty_amend,
}

pub record OrderRespData : Type 0 where
  pub public_order_id : ℕ
  pub updated_at : ℕ

pub record OrderRespBody : Type 0 where
  pub code : ℕ
  pub msg : String
  pub resp_data : Option OrderRespData

pub record OrderDto : Type 0 where
  pub symbol : String
  pub market_type : String
  pub side : String
  pub order_type : String
  pub amount : String
  pub price : Option String
  pub client_id : String
  pub is_hide : Bool

pub record AmendDetailDto : Type 0 where
  pub public_order_id : ℕ
  pub symbol : String
  pub market_type : String
  pub amount : String
  pub price : String

module _ {D : Type 0} (text : D → String) (symbol : String) where
  unfoldable pub order_dto : Order D → OrderDto
  unfolding translate_side_to_dto translate_order_type_to_dto
  order_dto o = record {
    symbol = symbol;
    market_type = "FUTURES";
    side = translate_side_to_dto o.side;
    order_type = translate_order_type_to_dto o.order_type;
    amount = text o.qty;
    price = if is_pricable o.order_type then some (text o.price) else none;
    client_id = o.id;
    is_hide = o.hide;
  }

  unfoldable pub order_dtos : List (Order D) → List OrderDto
  unfolding order_dto
  order_dtos [] = []
  order_dtos (o ∷ l) = order_dto o ∷ order_dtos l

  abbrev detail_of : AmendDetail D → Option ℕ → Option AmendDetailDto
  detail_of detail none = none
  detail_of detail (some id) = some (record {
    public_order_id = id;
    symbol = symbol;
    market_type = "FUTURES";
    amount = text detail.qty;
    price = text detail.price;
  })

  unfoldable pub amend_detail_dto : Texts → String → AmendDetail D → Option AmendDetailDto
  amend_detail_dto t public_id detail = detail_of detail (t.atoi public_id)

module _ (t : Texts) where
  abbrev first_bad : Option ℕ → Option Err → String → Option Err
  first_bad none rest id = some (foreign (t.bad_public_id id))
  first_bad (some n) rest id = rest

  -- The public IDs that `strconv` cannot read: the error of the cancels.
  unfoldable pub bad_public_id : List String → Option Err
  bad_public_id [] = none
  bad_public_id (id ∷ l) = first_bad (t.atoi id) (bad_public_id l) id

  abbrev pub or_error : Option Err → Option Err → Option Err
  or_error none e = e
  or_error (some e) _ = some e

  abbrev unparsable : String → Option ℕ → Option Err
  unparsable id none = some (foreign (t.parse_failed id))
  unparsable id (some n) = none

  -- The parts that the caller waits for. `limit_error` is what the limiter gives for an empty quota.
  unfoldable pub start_send :
      Bool → Err → Option Err → ℕ → ℕ → RateLimiter ℕ → RateLimiter ℕ × Option Err
  unfolding start_request
  start_send handled limit_error prepared n now l =
      start_request handled limit_error prepared group_order n now l

  unfoldable pub start_cancel :
      Bool → Err → Option Err → List String → ℕ → RateLimiter ℕ → RateLimiter ℕ × Option Err
  unfolding start_request bad_public_id
  start_cancel handled limit_error prepared ids now l =
      start_request handled limit_error (or_error (bad_public_id ids) prepared) group_cancel
        (length ids) now l

  unfoldable pub start_amend :
      Bool → Err → Option Err → String → ℕ → RateLimiter ℕ → RateLimiter ℕ × Option Err
  unfolding start_request
  start_amend handled limit_error prepared id now l =
      start_request handled limit_error (or_error (unparsable id (t.atoi id)) prepared) group_order
        1 now l

  -- `AmendOrders`.
  unfoldable pub start_amends : RateLimiter ℕ → RateLimiter ℕ × Option Err
  start_amends l = (l, some (foreign "not implemented"))

  abbrev pub http_error : String → Option Err
  http_error msg = some (error http_request_error msg)

  -- What a handler is called with; `now` is the time after `Do`.
  abbrev pub created : String → ℕ → Option OrderRespData → Option CreateOrderResp
  created id now none = none
  created id now (some r) = some (record (empty_create id) {
    public_id = t.format_int r.public_order_id;
    arrived_at = some r.updated_at;
    confirmed_at = some now;
  })

  abbrev pub without_error : {R : Type 0} → Option R → Option (R × Option Err)
  without_error none = none
  without_error (some r) = some (r, none)

  -- The response for one order that the exchange answered.
  unfoldable pub create_resp : String → ℕ → OrderRespBody → Option CreateOrderResp
  unfolding translate_error
  create_resp id now r =
      if r.code == ret_code_ok
      then created id now r.resp_data
      else some (record (empty_create id) { err = some (translate_error t.err_msg r.code r.msg) })

  abbrev pub create_body : String → ℕ → Body OrderRespBody → Option (CreateOrderResp × Option Err)
  create_body id now (unreadable e) = some (empty_create id, some (foreign (t.bad_body e)))
  create_body id now (decoded r) = without_error (create_resp id now r)

  unfoldable pub create_answer :
      String → ℕ → Reply OrderRespBody → Option (CreateOrderResp × Option Err)
  unfolding create_resp error
  create_answer id now (no_response e) = some (empty_create id, http_error (t.do_failed e))
  create_answer id now (response status body) =
      if status == status_ok
      then create_body id now body
      else some (empty_create id, http_error (t.bad_status status))

  unfoldable pub cancel_resp : String → OrderRespBody → CancelOrderResp
  unfolding translate_error
  cancel_resp id r = record {
    order_id = id;
    err = if r.code == ret_code_ok then none else some (translate_error t.err_msg r.code r.msg);
  }

  abbrev cancel_body : String → Body OrderRespBody → CancelOrderResp × Option Err
  cancel_body id (unreadable e) =
      (record { order_id = id; err = none }, some (foreign (t.bad_body e)))
  cancel_body id (decoded r) = (cancel_resp id r, none)

  unfoldable pub cancel_answer : String → Reply OrderRespBody → CancelOrderResp × Option Err
  unfolding cancel_resp error
  cancel_answer id (no_response e) =
      (record { order_id = id; err = none }, http_error (t.do_failed e))
  cancel_answer id (response status body) =
      if status == status_ok
      then cancel_body id body
      else (record { order_id = id; err = none }, http_error (t.bad_status status))

  module _ {D : Type 0} where
    abbrev amended :
        String → AmendDetail D → ℕ → Option OrderRespData → Option (AmendOrderResp D × Option Err)
    amended id detail now none = none
    amended id detail now (some r) = some (
      record (empty_amend id detail) { arrived_at = some r.updated_at; confirmed_at = some now },
      none,
    )

    abbrev amend_body :
        String → AmendDetail D → ℕ → Body OrderRespBody → Option (AmendOrderResp D × Option Err)
    amend_body id detail now (unreadable e) =
        some (empty_amend id detail, some (foreign (t.bad_body e)))
    amend_body id detail now (decoded r) =
        if r.code == ret_code_ok
        then amended id detail now r.resp_data
        else some (
          record (empty_amend id detail) { err = some (translate_error t.err_msg r.code r.msg) },
          none,
        )

    unfoldable pub amend_answer :
        String → AmendDetail D → ℕ → Reply OrderRespBody → Option (AmendOrderResp D × Option Err)
    unfolding translate_error error
    amend_answer id detail now (no_response e) =
        some (empty_amend id detail, http_error (t.do_failed e))
    amend_answer id detail now (response status body) =
        if status == status_ok
        then amend_body id detail now body
        else some (empty_amend id detail, http_error (t.bad_status status))
