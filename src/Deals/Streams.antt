-- ===== src/Deals/Streams.antt =====
-- domains/deals/dealing_handlers.go, the messages of the private WebSocket channels:
-- `HandleOrderData` and `HandlePositionData`.
use lapuacore.Common.{
  ℕ, suc, Bool, true, false, Option, none, some, List, [], ◌∷◌, String, if◌then◌else◌, string_eq,
  leb, ◌++◌,
}
use lapuacore.Mutex.Map.{get, set, delete}
use lapuacore.Mutex.Slice.{append}
use lapuacore.Domains.Decimal.{Decimal}
use lapuacore.Domains.Commons.{
  Side, side_none, side_buy, side_sell, OrderType, market, unknown_type,
}
use lapuacore.Deals.Order.{
  Order, set_filled_at, set_avg_price, set_exec_qty, set_fee, set_sent_timestamp,
  set_confirm_timestamps, unknown_status,
}
use lapuacore.Deals.World.{World, modify, with_dealer, update}
use lapuacore.Deals.Outcome.{accept_filled, accept_partially_filled}
use lapuacore.Deals.Messages.{
  OrderData, OrderDataStatus, opened, filled, partially_filled, is_done_status, is_unrelated,
  PositionData, PositionMode, one_way,
}

-- `Order{publicID: id}`: every other field is the zero value of its type.
unfoldable pub blank_order : {D : Type 0} → D → String → Order D
blank_order zero_dec public_id = record {
  id = "";
  public_id = public_id;
  hide = false;
  memo = "";
  order_type = unknown_type;
  price = zero_dec;
  qty = zero_dec;
  side = side_none;
  sent_at = none;
  arrived_at = none;
  confirmed_at = none;
  last_operated_at = none;
  status = unknown_status;
  filled_at = none;
  avg_price = zero_dec;
  exec_qty = zero_dec;
  fee = zero_dec;
  order_done_reason = none;
  create_callbacks = [];
  amend_callbacks = [];
  fill_callbacks = [];
  partially_fill_callbacks = [];
  cancel_callbacks = [];
  create_reject_callbacks = [];
  amend_reject_callbacks = [];
  amend_reject_order_not_exist_callbacks = [];
  cancel_reject_callbacks = [];
  amending_detail = none;
  amend_count = 0;
}

module _ {D : Type 0} where
  -- The four fields of both `setOrderFillInfo` and `setOrderPartiallyFillInfo`.
  unfoldable pub set_order_partially_fill_info : OrderData D → Order D → Order D
  set_order_partially_fill_info m o =
      set_fee m.cum_fee (
        set_exec_qty m.cum_exec_qty (set_avg_price m.avg_exec_price (set_filled_at m.arrived_at o)))

  unfoldable pub fill_times : OrderType → OrderData D → Order D → Order D
  fill_times market m o =
      set_confirm_timestamps m.arrived_at m.confirmed_at (set_sent_timestamp o.last_operated_at o)
  fill_times _ m o = o

  unfoldable pub set_order_fill_info : OrderData D → Order D → Order D
  unfolding set_order_partially_fill_info fill_times
  set_order_fill_info m o = fill_times o.order_type m (set_order_partially_fill_info m o)

  unfoldable pub finish_unrelated_at : Option ℕ → String → World D → World D
  finish_unrelated_at none public_id w = w
  finish_unrelated_at (some p) public_id w =
      with_dealer
        (λ d. record d {
          done_orders = append p d.done_orders;
          unrelated_orders = delete public_id d.unrelated_orders;
        })
        w

  unfoldable pub finish_unrelated : OrderData D → World D → World D
  unfolding finish_unrelated_at
  finish_unrelated m w =
      if is_done_status m.status
      then finish_unrelated_at (get m.public_id w.dealer.unrelated_orders) m.public_id w
      else w

  -- A filled, or a partially filled, living order; any other status moves nothing here.
  unfoldable pub fill_living : OrderDataStatus → ℕ → OrderData D → World D → World D
  unfolding set_order_fill_info set_order_partially_fill_info
  fill_living filled p m w = accept_filled p (modify p (set_order_fill_info m) w)
  fill_living partially_filled p m w =
      accept_partially_filled p (modify p (set_order_partially_fill_info m) w)
  fill_living _ p m w = w

  unfoldable pub fill_found : Option ℕ → OrderData D → World D → World D
  unfolding fill_living
  fill_found none m w = w
  fill_found (some p) m w = fill_living m.status p m w

module _ {D : Type 0} ⦃d : Decimal D⦄ where
  unfoldable pub open_unrelated_by : OrderDataStatus → OrderData D → World D → World D
  unfolding blank_order update
  open_unrelated_by opened m w =
      let o =
        set_confirm_timestamps m.arrived_at m.confirmed_at (blank_order d.zero_dec m.public_id) in
      record w {
        heap = update w.heap w.next o;
        next = suc w.next;
        dealer = record w.dealer {
          unrelated_orders = set m.public_id w.next w.dealer.unrelated_orders;
        };
      }
  open_unrelated_by _ m w = w

  unfoldable pub track_unrelated : OrderData D → World D → World D
  unfolding open_unrelated_by finish_unrelated
  track_unrelated m w =
      if is_unrelated m then finish_unrelated m (open_unrelated_by m.status m w) else w

  unfoldable pub handle_order_message : OrderData D → World D → World D
  unfolding track_unrelated fill_found
  handle_order_message m w =
      let w1 = track_unrelated m w in fill_found (get m.id w1.dealer.living_orders) m w1

  unfoldable pub handle_order_data : List (OrderData D) → World D → World D
  unfolding handle_order_message
  handle_order_data [] w = w
  handle_order_data (m ∷ ms) w = handle_order_data ms (handle_order_message m w)

unfoldable pub is_one_way : PositionMode → Bool
is_one_way one_way = true
is_one_way _ = false

module _ {D : Type 0} where
  unfoldable pub split_modes : List (PositionData D) → List (PositionData D) × List (PositionData D)
  split_modes [] = ([], [])
  split_modes (m ∷ ms) =
      let (one_ways, invalids) = split_modes ms in
      if is_one_way m.position_mode then (m ∷ one_ways, invalids) else (one_ways, m ∷ invalids)

  unfoldable pub extract_from :
      List (PositionData D) × List (PositionData D) → Option (PositionData D)
  extract_from ([], []) = none
  extract_from (m ∷ [], []) = some m
  extract_from (m ∷ n ∷ ms, []) = none
  extract_from (ms, m ∷ invalids) = none

  -- `none` stands for the three errors.
  unfoldable pub extract_position_data : List (PositionData D) → Option (PositionData D)
  unfolding split_modes extract_from
  extract_position_data ms = extract_from (split_modes ms)

module _ {D : Type 0} ⦃d : Decimal D⦄ where
  unfoldable pub signed_size : Side → D → D
  signed_size side_buy qty = qty
  signed_size side_sell qty = d.neg qty
  signed_size side_none qty = d.zero_dec

  unfoldable pub update_position : Option (PositionData D) → World D → World D
  unfolding signed_size
  update_position none w = w
  update_position (some m) w =
      if leb w.dealer.current_position.last_update_at m.timestamp
      then record w {
        dealer = record w.dealer {
          current_position = record {
            value = signed_size m.side m.qty;
            last_update_at = m.timestamp;
          };
        };
        position_notices = w.dealer.pos_updated_handlers ++ w.position_notices;
      }
      else w

  unfoldable pub handle_position_data : List (PositionData D) → World D → World D
  unfolding update_position extract_position_data
  handle_position_data ms w = update_position (extract_position_data ms) w

  unfoldable pub set_pos_updated_handler : ℕ → World D → World D
  set_pos_updated_handler h w =
      with_dealer (λ s. record s { pos_updated_handlers = s.pos_updated_handlers ++ h ∷ [] }) w
