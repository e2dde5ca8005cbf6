-- ===== src/Deals/Dealer.antt =====
-- domains/deals/dealer.go: the operations that a strategy calls. Each is the sequence of its calls,
-- with no other goroutine between them; `Deals.Race` has the interleavings that matter. Logging is
-- left out.
use lapuacore.Common.{
  ℕ, Bool, true, false, not, Option, none, some, List, [], ◌∷◌, ◌++◌, String, if◌then◌else◌,
  string_eq, is_some,
}
use lapuacore.Mutex.Map.{Map, get, set, delete, values, new_map}
use lapuacore.Mutex.Slice.{Slice, new_slice}
use lapuacore.Domains.Decimal.{Decimal}
use lapuacore.Deals.Errors.{
  Err, foreign, error, order_is_already_exists, order_not_ready_for_operation,
  order_is_not_amendable,
}
use lapuacore.Deals.Order.{
  Order, OrderStatus, AmendDetail, Callback, amend_later, cancel_later, set_status,
  record_last_operated_timestamp, set_amending_detail, set_create_callback, set_amend_callback,
  replace_create_callbacks, replace_amend_callbacks, is_amend_able, is_need_to_amend, done, pending,
  sending, amending, canceling, born, unknown_status,
}
use lapuacore.Deals.World.{
  World, DealerImpl, Agent, create_req, creates_req, amend_req, cancel_req, cancels_req, modify,
  spawn, with_dealer, call_agent,
}
use lapuacore.Deals.Outcome.{
  reject_create, reject_creates, reject_amend, reject_cancel, reject_cancels,
}

abbrev pub not_accepting : Err
not_accepting = foreign "dealer does not accept order"

-- The text that `amendOrder` adds, with `OrderStatus.String`.
abbrev pub status_message : OrderStatus → String
status_message born = "(order status: Born)"
status_message sending = "(order status: Sending)"
status_message pending = "(order status: Pending)"
status_message canceling = "(order status: Canceling)"
status_message amending = "(order status: Amending)"
status_message done = "(order status: Done)"
status_message unknown_status = "(order status: Unknown)"

-- `NewDealer` for a symbol that has no dealer yet.
unfoldable pub new_dealer : {D : Type 0} → D → ℕ → String → DealerImpl D
new_dealer zero_dec now symbol = record {
  accept_order = true;
  symbol = symbol;
  living_orders = new_map none;
  unrelated_orders = new_map none;
  amending_detail_map = new_map none;
  done_orders = new_slice [] 0;
  current_position = record { value = zero_dec; last_update_at = now };
  pos_updated_handlers = [];
}

module _ {D : Type 0} where
  -- `SetStatus` and the time stamp that goes with each request.
  unfoldable pub start_operation : OrderStatus → ℕ → World D → World D
  start_operation s p w = modify p (λ o. record_last_operated_timestamp w.now (set_status s o)) w

  -- The first locked block of `SendOrder`, without the call of the agent.
  unfoldable pub register : ℕ → World D → World D
  unfolding start_operation
  register p w =
      start_operation sending p
        (with_dealer (λ d. record d { living_orders = set (w.heap p).id p d.living_orders }) w)

  unfoldable pub is_living : World D → ℕ → Bool
  is_living w p = is_some (get (w.heap p).id w.dealer.living_orders)

  unfoldable pub any_living : World D → List ℕ → Bool
  any_living w [] = false
  any_living w (p ∷ ps) = if is_living w p then true else any_living w ps

  unfoldable pub register_all : List ℕ → World D → World D
  register_all [] w = w
  register_all (p ∷ ps) w = register_all ps (register p w)

  -- What both busy cases of `AmendOrder` do to the map.
  unfoldable pub set_amending : ℕ → AmendDetail D → World D → World D
  set_amending p detail w =
      with_dealer
        (λ d. record d { amending_detail_map = set (w.heap p).id detail d.amending_detail_map }) w

  unfoldable pub drop_amending : ℕ → World D → World D
  drop_amending p w =
      with_dealer
        (λ d. record d { amending_detail_map = delete (w.heap p).id d.amending_detail_map }) w

  unfoldable pub export_done_orders : World D → World D × Slice ℕ
  export_done_orders w =
      (with_dealer (λ d. record d { done_orders = new_slice [] 0 }) w, w.dealer.done_orders)

module _ {D : Type 0} (agent : Agent D) where
  -- The error of the agent, after the order has been registered.
  unfoldable pub settle_create : ℕ → World D × Option Err → World D × Option Err
  settle_create p (w, none) = (w, none)
  settle_create p (w, some e) = (reject_create p w, some e)

  unfoldable pub send_order : ℕ → World D → World D × Option Err
  unfolding settle_create register is_living
  send_order p w =
      if not w.dealer.accept_order
      then (w, some not_accepting)
      else if is_living w p
      then (w, some order_is_already_exists)
      else settle_create p (call_agent agent (create_req p) (register p w))

  unfoldable pub settle_creates : List ℕ → World D × Option Err → World D × Option Err
  settle_creates ps (w, none) = (w, none)
  settle_creates ps (w, some e) = (reject_creates ps w, some e)

  unfoldable pub send_orders : List ℕ → World D → World D × Option Err
  unfolding settle_creates register_all any_living
  send_orders ps w =
      if not w.dealer.accept_order
      then (w, some not_accepting)
      else if any_living w ps
      then (w, some order_is_already_exists)
      else settle_creates ps (call_agent agent (creates_req ps) (register_all ps w))

  unfoldable pub settle_cancel : ℕ → World D × Option Err → World D × Option Err
  settle_cancel p (w, none) = (w, none)
  settle_cancel p (w, some e) = (reject_cancel p w, some e)

  unfoldable pub cancel_by_status : OrderStatus → ℕ → World D → World D × Option Err
  unfolding settle_cancel start_operation
  cancel_by_status canceling p w = (w, none)
  cancel_by_status pending p w =
      settle_cancel p (call_agent agent (cancel_req p) (start_operation canceling p w))
  cancel_by_status _ p w = (w, some order_not_ready_for_operation)

  -- `cancelOrder`.
  unfoldable pub cancel_now : ℕ → World D → World D × Option Err
  unfolding cancel_by_status
  cancel_now p w = cancel_by_status (w.heap p).status p w

  -- A deferred cancel: `amendingDetailMap.Delete` and the callback in place of all others.
  unfoldable pub defer_cancel : OrderStatus → ℕ → World D → World D
  unfolding drop_amending
  defer_cancel sending p w = modify p (replace_create_callbacks cancel_later) (drop_amending p w)
  defer_cancel amending p w = modify p (replace_amend_callbacks cancel_later) (drop_amending p w)
  defer_cancel _ p w = w

  unfoldable pub cancel_order_by_status : OrderStatus → ℕ → World D → World D
  unfolding defer_cancel cancel_now
  cancel_order_by_status pending p w = (cancel_now p w).0
  cancel_order_by_status s p w = defer_cancel s p w

  -- `CancelOrder`, whose error is always nil.
  unfoldable pub cancel_order : ℕ → World D → World D
  unfolding cancel_order_by_status
  cancel_order p w = cancel_order_by_status (w.heap p).status p w

  -- `Orders.Unique`: the last pointer of each ID, in the order of a map's iteration.
  unfoldable pub unique_map : World D → List ℕ → Map String ℕ → Map String ℕ
  unique_map w [] m = m
  unique_map w (p ∷ ps) m = unique_map w ps (set (w.heap p).id p m)

  unfoldable pub unique : World D → List ℕ → List ℕ
  unfolding unique_map
  unique w ps = values (unique_map w ps [])

  -- The first loop of `CancelOrders`: the targets, and the deferred cancels.
  unfoldable pub sort_by_status : OrderStatus → ℕ → World D × List ℕ → World D × List ℕ
  unfolding defer_cancel
  sort_by_status pending p (w, targets) = (w, targets ++ p ∷ [])
  sort_by_status s p (w, targets) = (defer_cancel s p w, targets)

  unfoldable pub sort_targets : List ℕ → World D × List ℕ → World D × List ℕ
  unfolding sort_by_status
  sort_targets [] s = s
  sort_targets (p ∷ ps) s = sort_targets ps (sort_by_status (s.0.heap p).status p s)

  unfoldable pub start_all : List ℕ → World D → World D
  unfolding start_operation
  start_all [] w = w
  start_all (p ∷ ps) w = start_all ps (start_operation canceling p w)

  unfoldable pub cancel_targets : World D × List ℕ → World D × Option Err
  unfolding start_all
  cancel_targets (w, []) = (w, none)
  cancel_targets (w, p ∷ ps) = call_agent agent (cancels_req (p ∷ ps)) (start_all (p ∷ ps) w)

  -- On an error of the agent every order of the call is rejected, not the targets alone.
  unfoldable pub settle_cancels : List ℕ → World D × Option Err → World D
  settle_cancels ps (w, none) = w
  settle_cancels ps (w, some e) = reject_cancels ps w

  unfoldable pub cancel_orders : List ℕ → World D → World D
  unfolding unique sort_targets cancel_targets settle_cancels
  cancel_orders ps w =
      settle_cancels (unique w ps) (cancel_targets (sort_targets (unique w ps) (w, [])))

module _ {D : Type 0} ⦃d : Decimal D⦄ (agent : Agent D) where
  unfoldable pub settle_amend : ℕ → World D × Option Err → World D × Option Err
  settle_amend p (w, none) = (w, none)
  settle_amend p (w, some e) = (reject_amend p w, some e)

  unfoldable pub start_amend : OrderStatus → ℕ → AmendDetail D → World D → World D × Option Err
  unfolding start_operation
  start_amend pending p detail w = call_agent agent (amend_req p detail) (
      modify p
        (λ o.
          record_last_operated_timestamp w.now
            (set_amending_detail (some detail) (set_status amending o)))
        w)
  start_amend s p detail w = (w, some (error order_not_ready_for_operation (status_message s)))

  -- The locked block of `amendOrder`.
  unfoldable pub try_amend : ℕ → AmendDetail D → World D → World D × Option Err
  unfolding start_amend
  try_amend p detail w =
      if not (is_amend_able (w.heap p))
      then (w, some order_is_not_amendable)
      else if not (is_need_to_amend (w.heap p) detail)
      then (w, none)
      else start_amend (w.heap p).status p detail w

  -- `amendOrder`. An order that is no longer living has its callbacks run, and no error.
  unfoldable pub amend_now : ℕ → AmendDetail D → World D → World D × Option Err
  unfolding settle_amend try_amend is_living
  amend_now p detail w =
      if is_living w p
      then settle_amend p (try_amend p detail w)
      else (spawn p (w.heap p).amend_reject_order_not_exist_callbacks w, none)

  -- A busy order: the callback is registered unless one is, and the map takes the new detail.
  unfoldable pub defer_amend :
      (Callback D → Order D → Order D) → ℕ → AmendDetail D → World D → World D
  unfolding set_amending
  defer_amend register_callback p detail w = set_amending p detail (
      if is_some (get (w.heap p).id w.dealer.amending_detail_map)
      then w
      else modify p (register_callback (amend_later p detail)) w)

  unfoldable pub amend_order_by_status :
      OrderStatus → ℕ → AmendDetail D → World D → World D × Option Err
  unfolding amend_now defer_amend
  amend_order_by_status done p detail w =
      (spawn p (w.heap p).amend_reject_order_not_exist_callbacks w, none)
  amend_order_by_status pending p detail w = amend_now p detail w
  amend_order_by_status sending p detail w = (defer_amend set_create_callback p detail w, none)
  amend_order_by_status amending p detail w = (defer_amend set_amend_callback p detail w, none)
  amend_order_by_status _ p detail w = (w, some order_not_ready_for_operation)

  unfoldable pub amend_order : ℕ → AmendDetail D → World D → World D × Option Err
  unfolding amend_order_by_status
  amend_order p detail w =
      if not w.dealer.accept_order
      then (w, some not_accepting)
      else amend_order_by_status (w.heap p).status p detail w

  -- The detail that the closure of `AmendOrder` uses: the one in the map, or what it captured.
  abbrev pub or_captured : Option (AmendDetail D) → AmendDetail D → AmendDetail D
  or_captured none captured = captured
  or_captured (some detail) captured = detail

  -- A goroutine `cb(o)`. What a closure of the strategy does are further calls of the dealer.
  unfoldable pub run_callback : Callback D → ℕ → World D → World D
  unfolding drop_amending amend_now cancel_now
  run_callback (Callback.user n) o w = w
  run_callback (amend_later p captured) o w =
      (amend_now p (or_captured (get (w.heap o).id w.dealer.amending_detail_map) captured)
        (drop_amending o w)).0
  run_callback cancel_later o w = (cancel_now agent o w).0
