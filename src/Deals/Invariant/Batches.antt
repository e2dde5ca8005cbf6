-- ===== src/Deals/Invariant/Batches.antt =====
-- The batch operations `SendOrders` and `CancelOrders` of domains/deals/dealer.go, and the batch
-- response handlers of dealing_handlers.go, keep the books in order.
use lapuacore.Common.{
  ℕ, ◌≡◌, refl, inl, inr, Bool, true, Option, none, some, List, [], ◌∷◌, String, All, All-map,
  All-append, string_eq, Bool-cases, ◌==◌,
}
use lapuacore.Mutex.Map.{Map, get, set, values, gets, get_keys}
use lapuacore.Deals.Errors.{Err}
use lapuacore.Deals.Order.{
  OrderStatus, sending, pending, canceling, amending, set_status, record_last_operated_timestamp,
  replace_create_callbacks, replace_amend_callbacks, cancel_later,
}
use lapuacore.Deals.World.{World, Agent, call_agent}
use lapuacore.Deals.Messages.{AmendOrderResp, CancelOrderResp}
use lapuacore.Deals.Dealer.{
  start_operation, defer_cancel, drop_amending, unique_map, unique, sort_by_status, sort_targets,
  start_all, cancel_targets, settle_cancels, cancel_orders,
}
use lapuacore.Deals.Handlers.{
  keep_all, find_all_living, each_resp, answer_order, handle_amend_order_resp,
  handle_cancel_order_resp, handle_amend_orders_resp, handle_cancel_orders_resp, is_canceling,
  is_amending,
}
use lapuacore.Deals.Invariant.Books.{IsConsistent, kind, active_kind}
use lapuacore.Deals.Invariant.Outcomes.{
  IsUnderWay, active_elsewhere, reject_cancels-IsConsistent, reject_amends-IsConsistent,
}
use lapuacore.Deals.Invariant.Operations.{start-IsConsistent, defer_cancel-IsConsistent}
use lapuacore.Deals.Invariant.Handled.{
  notice_error-IsConsistent, handle_amend_order_resp-IsConsistent,
  handle_cancel_order_resp-IsConsistent, amending_kind, canceling_kind,
}

-- What was under way is still under way.
abbrev pub Keeps : {D : Type 0} → World D → World D → Type 0
Keeps w w' = (q : ℕ) → IsUnderWay w q → IsUnderWay w' q

module _ {D : Type 0} (agent : Agent D) where
  values-set :
      (P : ℕ → Type 0) (k : String) (p : ℕ) (m : Map String ℕ)
      → P p
      → All P (values m)
      → All P (values (set k p m))
  unfolding values set
  values-set P k p [] h a = (h, tt)
  values-set P k p ((j, q) ∷ m) h a = elim (Bool-cases (j == k)) [
    | inl e ↦ rw e (h, a.1)
    | inr e ↦ rw e (a.0, values-set P k p m h a.1)
  ]

  pub unique_map-All :
      (P : ℕ → Type 0) (w : World D) (ps : List ℕ) (m : Map String ℕ)
      → All P ps
      → All P (values m)
      → All P (values (unique_map agent w ps m))
  unfolding unique_map
  unique_map-All P w [] m a b = b
  unique_map-All P w (p ∷ ps) m a b = unique_map-All P w ps _ a.1 (values-set P _ p m a.0 b)

  start-active_elsewhere :
      (w : World D) (p q : ℕ) → IsUnderWay w q → IsUnderWay (start_operation canceling p w) q
  unfolding start_operation set_status record_last_operated_timestamp
  start-active_elsewhere w p q a = active_elsewhere w p q _ refl a

  defer-active :
      (s : OrderStatus) (w : World D) (p q : ℕ)
      → (w.heap p).status ≡ s
      → IsUnderWay w q
      → IsUnderWay (defer_cancel agent s p w) q
  unfolding defer_cancel drop_amending replace_create_callbacks replace_amend_callbacks
  defer-active sending w p q e a =
      active_elsewhere _ p q (replace_create_callbacks cancel_later) (rw e refl) a
  defer-active amending w p q e a =
      active_elsewhere _ p q (replace_amend_callbacks cancel_later) (rw e refl) a
  defer-active _ w p q e a = a

  module _ (w : World D) (v : IsConsistent w) (p : ℕ) (qs : List ℕ) (a : IsUnderWay w p)
      (b : All (IsUnderWay w) qs) where
    sort_by :
        (s : OrderStatus)
        → (w.heap p).status ≡ s
        → let r = sort_by_status agent s p (w, qs) in
          IsConsistent r.0 × Keeps w r.0 × All (IsUnderWay r.0) r.1
    unfolding sort_by_status
    sort_by pending e = (v, λ q u. u, All-append (IsUnderWay w) qs (p ∷ []) b (rw e refl, tt))
    sort_by s e = (
      defer_cancel-IsConsistent agent w v p s e,
      λ q u. defer-active s w p q e u,
      All-map (IsUnderWay w) (IsUnderWay (defer_cancel agent s p w)) qs
          (λ q u. defer-active s w p q e u) b,
    )

  -- The first loop of `CancelOrders`.
  sort-targets :
      (ps qs : List ℕ) (w : World D)
      → IsConsistent w
      → All (IsUnderWay w) ps
      → All (IsUnderWay w) qs
      → let r = sort_targets agent ps (w, qs) in
        IsConsistent r.0 × Keeps w r.0 × All (IsUnderWay r.0) r.1
  unfolding sort_targets
  sort-targets [] qs w v a b = (v, λ q u. u, b)
  sort-targets (p ∷ ps) qs w v a b =
      let one = sort_by w v p qs a.0 b (w.heap p).status refl in
      let rest = sort-targets ps _ _ one.0 (All-map (IsUnderWay w) _ ps one.1 a.1) one.2 in
      (rest.0, λ q u. rest.1 q (one.1 q u), rest.2)

  start-All :
      (ps : List ℕ) (w : World D)
      → IsConsistent w
      → All (IsUnderWay w) ps
      → IsConsistent (start_all agent ps w) × Keeps w (start_all agent ps w)
  unfolding start_all
  start-All [] w v a = (v, λ q u. u)
  start-All (p ∷ ps) w v a =
      let rest =
        start-All ps (start_operation canceling p w)
          (start-IsConsistent w v p canceling refl (λ c. cc) a.0)
          (All-map (IsUnderWay w) _ ps (λ q u. start-active_elsewhere w p q u) a.1) in
      (rest.0, λ q u. rest.1 q (start-active_elsewhere w p q u))

  cancel-targets :
      (ts : List ℕ) (w : World D)
      → IsConsistent w
      → All (IsUnderWay w) ts
      → IsConsistent (cancel_targets agent (w, ts)).0 × Keeps w (cancel_targets agent (w, ts)).0
  unfolding cancel_targets call_agent
  cancel-targets [] w v a = (v, λ q u. u)
  cancel-targets (p ∷ ps) w v a = start-All (p ∷ ps) w v a

  settle-cancels :
      (ps : List ℕ) (w : World D) (err : Option Err)
      → IsConsistent w
      → All (IsUnderWay w) ps
      → IsConsistent (settle_cancels agent ps (w, err))
  unfolding settle_cancels
  settle-cancels ps w none v a = v
  settle-cancels ps w (some e) v a = reject_cancels-IsConsistent ps w v a

  -- `CancelOrders` of orders that are all under way, whatever the agent answers.
  pub cancel_orders-IsConsistent :
      (ps : List ℕ) (w : World D)
      → IsConsistent w
      → All (IsUnderWay w) ps
      → IsConsistent (cancel_orders agent ps w)
  unfolding cancel_orders unique values
  cancel_orders-IsConsistent ps w v a =
      let targets = unique agent w ps in
      let all = unique_map-All (IsUnderWay w) w ps [] a tt in
      let sorted = sort-targets targets [] w v all tt in
      let asked = cancel-targets (sort_targets agent targets (w, [])).1 _ sorted.0 sorted.2 in
      settle-cancels targets _ _ asked.0
        (All-map (IsUnderWay w) _ targets (λ q u. asked.1 q (sorted.1 q u)) all)

module _ {D : Type 0} where
  keep_all-active :
      (test : OrderStatus → Bool)
      → ((s : OrderStatus) → test s ≡ true → kind s ≡ active_kind)
      → (w : World D) (os : List (Option ℕ)) → All (IsUnderWay w) (keep_all test w os)
  unfolding keep_all
  keep_all-active test k w [] = tt
  keep_all-active test k w (none ∷ os) = keep_all-active test k w os
  keep_all-active test k w (some p ∷ os) = elim (Bool-cases (test (w.heap p).status)) [
    | inl e ↦ rw e (k (w.heap p).status e, keep_all-active test k w os)
    | inr e ↦ rw e (keep_all-active test k w os)
  ]

  answer_order-IsConsistent :
      {R : Type 0} (handle : R → World D → World D)
      → ((resp : R) (w : World D) → IsConsistent w → IsConsistent (handle resp w))
      → (o : Option R) (w : World D) → IsConsistent w
      → IsConsistent (answer_order handle o w)
  unfolding answer_order
  answer_order-IsConsistent handle k none w v = v
  answer_order-IsConsistent handle k (some r) w v = k r w v

  pub find_all_living-active :
      (test : OrderStatus → Bool)
      → ((s : OrderStatus) → test s ≡ true → kind s ≡ active_kind)
      → (w : World D) (ids : List String) → All (IsUnderWay w) (find_all_living test ids w)
  unfolding find_all_living
  find_all_living-active test k w ids = keep_all-active test k w (gets ids w.dealer.living_orders)

  pub each_resp-IsConsistent :
      {R : Type 0} (handle : R → World D → World D) (resps : Map String R)
      → ((resp : R) (w : World D) → IsConsistent w → IsConsistent (handle resp w))
      → (ps : List ℕ) (w : World D) → IsConsistent w
      → IsConsistent (each_resp handle resps ps w)
  unfolding each_resp
  each_resp-IsConsistent handle resps k [] w v = v
  each_resp-IsConsistent handle resps k (p ∷ ps) w v =
      each_resp-IsConsistent handle resps k ps _
        (answer_order-IsConsistent handle k (get (w.heap p).id resps) w v)

  -- `handleCancelOrdersResp`, whatever the responses.
  pub handle_cancel_orders_resp-IsConsistent :
      (resps : Map String CancelOrderResp) (err : Option Err) (w : World D)
      → IsConsistent w
      → IsConsistent (handle_cancel_orders_resp resps err w)
  unfolding handle_cancel_orders_resp
  handle_cancel_orders_resp-IsConsistent resps none w v =
      each_resp-IsConsistent (λ r. handle_cancel_order_resp r none) resps
        (λ r u c. handle_cancel_order_resp-IsConsistent u c r none)
        (find_all_living is_canceling (get_keys resps) w) w v
  handle_cancel_orders_resp-IsConsistent resps (some e) w v = notice_error-IsConsistent _ e (
      reject_cancels-IsConsistent (find_all_living is_canceling (get_keys resps) w) w v
        (find_all_living-active is_canceling canceling_kind w (get_keys resps)))

  -- `handleAmendOrdersResp`, whatever the responses.
  pub handle_amend_orders_resp-IsConsistent :
      (resps : Map String (AmendOrderResp D)) (err : Option Err) (w : World D)
      → IsConsistent w
      → IsConsistent (handle_amend_orders_resp resps err w)
  unfolding handle_amend_orders_resp
  handle_amend_orders_resp-IsConsistent resps none w v =
      each_resp-IsConsistent (λ r. handle_amend_order_resp r none) resps
        (λ r u c. handle_amend_order_resp-IsConsistent u c r none)
        (find_all_living is_amending (get_keys resps) w) w v
  handle_amend_orders_resp-IsConsistent resps (some e) w v = notice_error-IsConsistent _ e (
      reject_amends-IsConsistent (find_all_living is_amending (get_keys resps) w) w v
        (find_all_living-active is_amending amending_kind w (get_keys resps)))
