-- ===== src/Gateways/Agents/Examples.antt =====
-- What the theorems on the agents say at concrete values.
use lapuacore.Common.{
  ℕ, ◌≡◌, refl, true, false, Option, none, some, [], ◌∷◌, String, nat_eq, string_eq, arith,
}
use lapuacore.Mutex.Map.{Map, get}
use lapuacore.Deals.Errors.{Err}
use lapuacore.Deals.Messages.{CreateOrderResp, CancelOrderResp}
use lapuacore.Deals.Order.{sending, canceling}
use lapuacore.Deals.World.{World}
use lapuacore.Deals.Order.New.{new_order}
use lapuacore.Deals.Handlers.{
  find_living, is_sending, is_canceling, accepts_response, handle_send_order_resp,
  handle_cancel_order_resp,
}
use lapuacore.Deals.Samples.{holding, in_status}
use lapuacore.Gateways.Agents.{Reply, no_response, response, decoded, Texts, status_ok}
use lapuacore.Gateways.Agents.Bybit
use lapuacore.Gateways.Agents.Coinex
use lapuacore.Gateways.Agents.Coinex.Batches.{OrdersRespBody, creates_answer, cancels_answer}
use lapuacore.Gateways.Agents.Coinex.Each.{IsAnswered, batch_answers-each}
use lapuacore.Gateways.Agents.Answers.{is_settled, create_answer-settles}
use lapuacore.Gateways.Agents.Failures.{http_failure-accept_order, cancel_answer-settles}

abbrev texts : Texts
texts = record {
  do_failed = λ e. e;
  bad_status = λ n. "status";
  bad_body = λ e. e;
  err_msg = λ n m. m;
  format_int = λ n. "7";
  atoi = λ s. some 7;
  bad_public_id = λ s. s;
  parse_failed = λ s. s;
}

abbrev sent_world : World ℕ
sent_world = holding (in_status sending)

abbrev bybit_success : Reply Bybit.BaseRespBody
bybit_success = response 200 (decoded (record { ret_code = 0; ret_msg = "OK"; timestamp_ms = 9 }))

abbrev entry : Coinex.OrderRespBody
entry = record {
  code = 0;
  msg = "OK";
  resp_data = some (record { public_order_id = 7; updated_at = 9 });
}

abbrev refused : Coinex.OrderRespBody
refused = record { code = 3109; msg = "balance"; resp_data = none }

create_answer-settles_example :
    let answer = Bybit.create_answer texts true 8 10 "a" bybit_success in
    (is_settled ((handle_send_order_resp answer.0 answer.1 sent_world).heap 0).status ≡ true)
    × ((resp : CreateOrderResp) × (err : Option Err) × (Coinex.create_answer texts "a" 10
            (response 200 (decoded refused))
          ≡ some (resp, err))
        × (is_settled ((handle_send_order_resp resp err sent_world).heap 0).status ≡ true))
unfolding find_living get is_sending accepts_response new_order
create_answer-settles_example =
    create_answer-settles texts sent_world 0 "a" true 8 10 bybit_success
      (response 200 (decoded refused)) refl refl refl

http_failure-accept_order_example :
    let answer = Bybit.create_answer texts true 8 10 "a" (no_response "timeout") in
    ((handle_send_order_resp answer.0 answer.1 sent_world).dealer.accept_order ≡ false)
    × ((resp : CreateOrderResp) × (err : Option Err) × (Coinex.create_answer texts "a" 10
            (response 502 (decoded entry))
          ≡ some (resp, err))
        × ((handle_send_order_resp resp err sent_world).dealer.accept_order
            ≡ sent_world.dealer.accept_order))
unfolding find_living get is_sending
http_failure-accept_order_example =
    http_failure-accept_order sent_world 0 texts "a" refl true 8 10 (no_response "timeout")
      (response 502 (decoded entry)) refl refl

abbrev canceled_world : World ℕ
canceled_world = holding (in_status canceling)

cancel_answer-settles_example :
    let x = Bybit.cancel_answer texts true 8 10 "a" bybit_success in
    let y = Coinex.cancel_answer texts "a" (no_response "timeout") in
    (is_settled ((handle_cancel_order_resp x.0 x.1 canceled_world).heap 0).status ≡ true)
    × (is_settled ((handle_cancel_order_resp y.0 y.1 canceled_world).heap 0).status ≡ true)
unfolding find_living get is_canceling
cancel_answer-settles_example =
    cancel_answer-settles canceled_world 0 texts true 8 10 "a" bybit_success (no_response "timeout")
      refl

abbrev batch : OrdersRespBody
batch = record { code = 0; msg = "OK"; resp_data = entry ∷ refused ∷ [] }

batch_answers-each_example :
    ((m : Map String CreateOrderResp) × (creates_answer texts
          ("a" ∷ "b" ∷ [])
          10
          (response status_ok (decoded batch))
        ≡ some (m, none))
      × IsAnswered (λ id x. Coinex.create_resp texts id 10 x) ("a" ∷ "b" ∷ []) batch.resp_data m)
    × ((m : Map String CancelOrderResp) × (cancels_answer texts
            ("a" ∷ "b" ∷ [])
            (response status_ok (decoded batch))
          ≡ some (m, none))
        × IsAnswered
            (λ id x. some (Coinex.cancel_resp texts id x))
            ("a" ∷ "b" ∷ [])
            batch.resp_data
            m)
batch_answers-each_example =
    batch_answers-each texts ("a" ∷ "b" ∷ []) 10 batch refl ((refl, tt), (tt, tt)) (omega arith)
      (refl, (refl, tt))
