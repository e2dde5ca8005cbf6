-- ===== src/Gateways/Agents/Coinex/Batches.antt =====
-- The batch methods of internal/gateways/exchanges/coinex/agent/agent.go: the responses of the orders of
-- a call, from an answer with one entry for each order.
use lapuacore.Common.{
  ℕ, Option, none, some, List, [], ◌∷◌, String, ◌==◌, nat_eq, string_eq, if◌then◌else◌,
}
use lapuacore.Mutex.Map.{Map, set}
use lapuacore.Deals.Errors.{Err, error, foreign}
use lapuacore.Deals.Messages.{CreateOrderResp, CancelOrderResp}
use lapuacore.Gateways.Coinex.{translate_error}
use lapuacore.Gateways.Agents.{
  Body, unreadable, decoded, Reply, no_response, response, status_ok, ret_code_ok, Texts,
  empty_create,
}
use lapuacore.Gateways.Agents.Coinex.{
  OrderRespBody, http_error, without_error, create_resp, cancel_resp,
}

pub record OrdersRespBody : Type 0 where
  pub code : ℕ
  pub msg : String
  pub resp_data : List OrderRespBody

-- `respMap[orderID] = nil` for all orders. With an error the dealer reads the keys only, and an empty
-- response stands for nil.
module _ {R : Type 0} (empty : String → R) where
  unfoldable pub no_resps : List String → Map String R → Map String R
  no_resps [] m = m
  no_resps (id ∷ l) m = no_resps l (set id (empty id) m)

-- The loop over the orders of a call, with `Data[i]`.
module _ {R : Type 0} (resp : String → OrderRespBody → Option R) where
  abbrev store : String → Option R → Map String R → Option (Map String R)
  store id none m = none
  store id (some r) m = some (set id r m)

  abbrev go_on :
      Option (Map String R) → (Map String R → Option (Map String R)) → Option (Map String R)
  go_on none f = none
  go_on (some m) f = f m

  unfoldable pub fill_resps :
      List String → List OrderRespBody → Map String R → Option (Map String R)
  fill_resps [] d m = some m
  fill_resps (id ∷ l) [] m = none
  fill_resps (id ∷ l) (r ∷ d) m = go_on (store id (resp id r) m) (λ m'. fill_resps l d m')

abbrev pub empty_cancel : String → CancelOrderResp
empty_cancel id = record { order_id = id; err = none }

module _ (t : Texts) where
  module _ {R : Type 0} (empty : String → R) (resp : String → OrderRespBody → Option R) where
    abbrev batch_body : List String → Body OrdersRespBody → Option (Map String R × Option Err)
    batch_body ids (unreadable e) = some (no_resps empty ids [], some (foreign (t.bad_body e)))
    batch_body ids (decoded r) =
        if r.code == ret_code_ok
        then without_error t (fill_resps resp ids r.resp_data (no_resps empty ids []))
        else some (no_resps empty ids [], some (translate_error t.err_msg r.code r.msg))

    -- Both batch methods, over the response of one order.
    unfoldable pub batch_answer :
        List String → Reply OrdersRespBody → Option (Map String R × Option Err)
    unfolding no_resps fill_resps translate_error error
    batch_answer ids (no_response e) = some (no_resps empty ids [], http_error t (t.do_failed e))
    batch_answer ids (response status body) =
        if status == status_ok
        then batch_body ids body
        else some (no_resps empty ids [], http_error t (t.bad_status status))

  unfoldable pub creates_answer :
      List String → ℕ → Reply OrdersRespBody → Option (Map String CreateOrderResp × Option Err)
  unfolding batch_answer
  creates_answer ids now reply =
      batch_answer empty_create (λ id r. create_resp t id now r) ids reply

  unfoldable pub cancels_answer :
      List String → Reply OrdersRespBody → Option (Map String CancelOrderResp × Option Err)
  unfolding batch_answer
  cancels_answer ids reply = batch_answer empty_cancel (λ id r. some (cancel_resp t id r)) ids reply
