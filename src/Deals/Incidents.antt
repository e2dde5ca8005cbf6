-- ===== src/Deals/Incidents.antt =====
-- What the theorems of `Deals` on races, errors, positions and sizes say at concrete orders.
use lapuacore.Common.{
  ℕ, ◌≡◌, refl, ◌⊎◌, none, some, List, [], ◌∷◌, All, string_eq, if◌then◌else◌, nat_beq,
}
use lapuacore.Mutex.Map.{get, set, new_map, values}
use lapuacore.Mutex.Slice.{new_slice}
use lapuacore.Domains.Commons.{side_buy}
use lapuacore.Deals.Errors.{foreign, auth_error, wrapped, is_warn, is_info, is_http_request}
use lapuacore.Deals.Order.{
  AmendDetail, amend_later, pending, amending, canceling, done, is_amend_able,
}
use lapuacore.Deals.Order.New.{new_order}
use lapuacore.Deals.World.{World, amend_req}
use lapuacore.Deals.Messages.{
  AmendOrderResp, CancelOrderResp, OrderData, filled, PositionData, one_way,
}
use lapuacore.Deals.Outcome.{accept_amend}
use lapuacore.Deals.Dealer.{
  send_order, send_orders, amend_order, amend_now, cancel_orders, run_callback, new_dealer,
  not_accepting, unique, unique_map, is_living, sort_targets, sort_by_status,
}
use lapuacore.Deals.Handlers.{notice_error, locked_cancel, handle_amend_order_resp}
use lapuacore.Deals.Streams.{fill_living, handle_position_data}
use lapuacore.Deals.Race.{fill_during_cancel, stale_amend, cancel_orders_refused}
use lapuacore.Deals.Notices.{notice_error-stops}
use lapuacore.Deals.Positions.{Moved, IsMove, handle_position_data-cases}
use lapuacore.Deals.AmendLimit.{amend_round-is_amend_able}
use lapuacore.Deals.Samples.{whole, agreeing, refusing, detail_of, idle, holding, in_status}

abbrev fill_message : OrderData ℕ
fill_message = record {
  id = "a";
  public_id = "x1";
  side = side_buy;
  price = 100;
  qty = 5;
  avg_exec_price = 100;
  cum_fee = 1;
  cum_exec_qty = 5;
  status = filled;
  arrived_at = some 8;
  confirmed_at = some 9;
}

abbrev canceled_resp : CancelOrderResp
canceled_resp = record { order_id = "a"; err = none }

fill_during_cancel_example :
    (locked_cancel
      (some 0)
      canceled_resp
      none
      (fill_living filled 0 fill_message (holding (in_status canceling)))).dealer.done_orders.a
    ≡ 0 ∷ 0 ∷ []
unfolding new_dealer new_slice
fill_during_cancel_example =
    fill_during_cancel 0 fill_message canceled_resp (holding (in_status canceling)) refl refl

-- Amended from 101 to 103, with the callback of a deferred amendment to 101 still on it.
abbrev twice_amended : World ℕ
twice_amended =
    holding (record (in_status amending) { amend_callbacks = amend_later 0 (detail_of 101) ∷ [] })

stale_amend_example :
    let u = accept_amend 0 (detail_of 103) none none twice_amended in
    (u.tasks ≡ (amend_later 0 (detail_of 101), 0) ∷ [])
    × ((run_callback agreeing (amend_later 0 (detail_of 101)) 0 u).requests
        ≡ amend_req 0 (detail_of 101) ∷ [])
unfolding is_living is_amend_able get new_order new_dealer new_map
stale_amend_example =
    stale_amend agreeing 0 (detail_of 101) (detail_of 103) none none twice_amended refl refl refl
      refl refl refl

-- A living order at 0, and one that is done at 1.
abbrev half_done : World ℕ
half_done = record (holding (in_status pending)) {
  heap = λ p. if nat_beq 0 p then in_status pending else record (in_status done) { id = "b" };
  next = 2;
}

cancel_orders_refused_example :
    All
      (λ q. ((cancel_orders refusing (0 ∷ 1 ∷ []) half_done).heap q).status ≡ pending)
      (unique refusing half_done (0 ∷ 1 ∷ []))
unfolding unique unique_map set values sort_targets sort_by_status new_order
cancel_orders_refused_example =
    cancel_orders_refused refusing (0 ∷ 1 ∷ []) half_done (foreign "not implemented") 0 []
      (λ h rs. refl) refl

notice_error-stops_example :
    let u = notice_error (wrapped auth_error "invalid key") idle in
    (u.notices ≡ wrapped auth_error "invalid key" ∷ [])
    × ((p : ℕ) → send_order agreeing p u ≡ (u, some not_accepting))
    × ((ps : List ℕ) → send_orders agreeing ps u ≡ (u, some not_accepting))
    × ((p : ℕ) (detail : AmendDetail ℕ) → amend_order agreeing p detail u ≡ (u, some not_accepting))
unfolding is_info is_warn is_http_request
notice_error-stops_example =
    notice_error-stops agreeing (wrapped auth_error "invalid key") idle refl

abbrev position_at : ℕ → PositionData ℕ
position_at t = record { timestamp = t; position_mode = one_way; side = side_buy; qty = 3 }

handle_position_data-cases_example :
    let batch = position_at 9 ∷ [] in
    ((m : PositionData ℕ) × IsMove batch idle m × Moved m idle (handle_position_data batch idle))
    ⊎ (((m : PositionData ℕ) → IsMove batch idle m → ⊥) × (handle_position_data batch idle ≡ idle))
handle_position_data-cases_example = handle_position_data-cases (position_at 9 ∷ []) idle

abbrev amended_resp : AmendOrderResp ℕ
amended_resp = record {
  order_id = "a";
  detail = detail_of 103;
  arrived_at = some 8;
  confirmed_at = some 9;
  err = none;
}

amend_round-is_amend_able_example :
    is_amend_able (
      (handle_amend_order_resp amended_resp none
          (amend_now agreeing 0 (detail_of 103) (holding (in_status pending))).0).heap
        0)
    ≡ is_amend_able ((holding (in_status pending)).heap 0)
amend_round-is_amend_able_example =
    amend_round-is_amend_able agreeing 0 (detail_of 103) amended_resp none
      (holding (in_status pending)) 0
