-- ===== src/Deals/Final/Operations.antt =====
-- The operations of domains/deals/dealer.go leave a done order alone.
use lapuacore.Common.{
  ℕ, ◌<◌, ◌≡◌, refl, ap, ◌≢◌, not, Option, none, some, List, [], ◌∷◌, All, All-append, All-map,
}
use lapuacore.Mutex.Map.{values}
use lapuacore.Deals.Errors.{Err}
use lapuacore.Deals.Order.{Order, OrderStatus, done, born, sending, pending, amending}
use lapuacore.Deals.World.{World, Agent, call_agent}
use lapuacore.Deals.Dealer.{
  register, start_operation, register_all, is_living, any_living, settle_create, send_order,
  settle_creates, send_orders, settle_cancel, cancel_by_status, cancel_now, defer_cancel,
  drop_amending, cancel_order, cancel_order_by_status, unique, sort_by_status, sort_targets,
  start_all, cancel_targets, settle_cancels, cancel_orders,
}
use lapuacore.Deals.Invariant.Books.{kind}
use lapuacore.Deals.Invariant.Outcomes.{IsUnderWay}
use lapuacore.Deals.Invariant.Batches.{unique_map-All}
use lapuacore.Deals.Final.Held.{
  Held, modify-Held, branch_result, apart-active, apart-born, reject_create-Held,
  reject_creates-Held, reject_cancel-Held, reject_cancels-Held,
}

module _ {D : Type 0} {p : ℕ} {o : Order D} (agent : Agent D) where
  settle_create-Held :
      (q : ℕ) (w : World D) (err : Option Err)
      → q ≢ p
      → Held p o w
      → Held p o (settle_create agent q (w, err)).0
  unfolding settle_create
  settle_create-Held q w none n h = h
  settle_create-Held q w (some e) n h = reject_create-Held w q n h

  register_all-Held :
      (qs : List ℕ) (w : World D) → All (λ q. q ≢ p) qs → Held p o w → Held p o (register_all qs w)
  unfolding register_all register start_operation
  register_all-Held [] w n h = h
  register_all-Held (q ∷ qs) w n h = register_all-Held qs _ n.1 (modify-Held q _ _ n.0 h)

  settle_creates-Held :
      (qs : List ℕ) (w : World D) (err : Option Err)
      → All (λ q. q ≢ p) qs
      → Held p o w
      → Held p o (settle_creates agent qs (w, err)).0
  unfolding settle_creates
  settle_creates-Held qs w none n h = h
  settle_creates-Held qs w (some e) n h = reject_creates-Held qs w n h

  settle_cancel-Held :
      (q : ℕ) (w : World D) (err : Option Err)
      → q ≢ p
      → Held p o w
      → Held p o (settle_cancel agent q (w, err)).0
  unfolding settle_cancel
  settle_cancel-Held q w none n h = h
  settle_cancel-Held q w (some e) n h = reject_cancel-Held w q n h

  defer_cancel-Held :
      (s : OrderStatus) (q : ℕ) (w : World D)
      → q ≢ p
      → Held p o w
      → Held p o (defer_cancel agent s q w)
  unfolding defer_cancel drop_amending
  defer_cancel-Held sending q w n h = modify-Held q _ _ n h
  defer_cancel-Held amending q w n h = modify-Held q _ _ n h
  defer_cancel-Held _ q w n h = h

  -- The first loop of `CancelOrders`.
  sort_by-Held :
      (s : OrderStatus) (q : ℕ) (w : World D) (ts : List ℕ)
      → q ≢ p
      → All (λ r. r ≢ p) ts
      → Held p o w
      → Held p o (sort_by_status agent s q (w, ts)).0
        × All (λ r. r ≢ p) (sort_by_status agent s q (w, ts)).1
  unfolding sort_by_status
  sort_by-Held pending q w ts n a h = (h, All-append (λ r. r ≢ p) ts (q ∷ []) a (n, tt))
  sort_by-Held s q w ts n a h = (defer_cancel-Held s q w n h, a)

  sort_targets-Held :
      (qs ts : List ℕ) (w : World D)
      → All (λ q. q ≢ p) qs
      → All (λ r. r ≢ p) ts
      → Held p o w
      → Held p o (sort_targets agent qs (w, ts)).0
        × All (λ r. r ≢ p) (sort_targets agent qs (w, ts)).1
  unfolding sort_targets
  sort_targets-Held [] ts w n a h = (h, a)
  sort_targets-Held (q ∷ qs) ts w n a h =
      let one = sort_by-Held (w.heap q).status q w ts n.0 a h in
      sort_targets-Held qs _ _ n.1 one.1 one.0

  start_all-Held :
      (qs : List ℕ) (w : World D)
      → All (λ q. q ≢ p) qs
      → Held p o w
      → Held p o (start_all agent qs w)
  unfolding start_all start_operation
  start_all-Held [] w n h = h
  start_all-Held (q ∷ qs) w n h = start_all-Held qs _ n.1 (modify-Held q _ w n.0 h)

  cancel_targets-Held :
      (ts : List ℕ) (w : World D)
      → All (λ q. q ≢ p) ts
      → Held p o w
      → Held p o (cancel_targets agent (w, ts)).0
  unfolding cancel_targets call_agent
  cancel_targets-Held [] w n h = h
  cancel_targets-Held (q ∷ ts) w n h = start_all-Held (q ∷ ts) w n h

  settle_cancels-Held :
      (qs : List ℕ) (w : World D) (err : Option Err)
      → All (λ q. q ≢ p) qs
      → Held p o w
      → Held p o (settle_cancels agent qs (w, err))
  unfolding settle_cancels
  settle_cancels-Held qs w none n h = h
  settle_cancels-Held qs w (some e) n h = reject_cancels-Held qs w n h

  module _ (w : World D) (h : Held p o w) (final : o.status ≡ done) where
    pub send_order-Held : (q : ℕ) → (w.heap q).status ≡ born → Held p o (send_order agent q w).0
    unfolding send_order call_agent register start_operation
    send_order-Held q b =
        let n = apart-born w h final q b in
        branch_result (not w.dealer.accept_order) _ _ h
          (branch_result (is_living w q) _ _ h (settle_create-Held q _ _ n (modify-Held q _ _ n h)))

    pub send_orders-Held :
        (qs : List ℕ)
        → All (λ q. ((w.heap q).status ≡ born) × (q < w.next)) qs
        → Held p o (send_orders agent qs w).0
    unfolding send_orders call_agent
    send_orders-Held qs a =
        let n = All-map _ (λ q. q ≢ p) qs (λ q b. apart-born w h final q b.0) a in
        branch_result (not w.dealer.accept_order) _ _ h (
          branch_result (any_living w qs) _ _ h
            (settle_creates-Held qs _ _ n (register_all-Held qs w n h)))

    cancel_by :
        (s : OrderStatus) (q : ℕ)
        → (w.heap q).status ≡ s
        → Held p o (cancel_by_status agent s q w).0
    unfolding cancel_by_status call_agent start_operation
    cancel_by pending q e =
        let n = apart-active w h final q (ap kind e) in
        settle_cancel-Held q _ _ n (modify-Held q _ w n h)
    cancel_by _ q e = h

    pub cancel_now-Held : (q : ℕ) → Held p o (cancel_now agent q w).0
    unfolding cancel_now
    cancel_now-Held q = cancel_by (w.heap q).status q refl

    cancel_order_by :
        (s : OrderStatus) (q : ℕ)
        → (w.heap q).status ≡ s
        → Held p o (cancel_order_by_status agent s q w)
    unfolding cancel_order_by_status defer_cancel
    cancel_order_by pending q e = cancel_now-Held q
    cancel_order_by sending q e =
        defer_cancel-Held sending q w (apart-active w h final q (ap kind e)) h
    cancel_order_by amending q e =
        defer_cancel-Held amending q w (apart-active w h final q (ap kind e)) h
    cancel_order_by _ q e = h

    pub cancel_order-Held : (q : ℕ) → Held p o (cancel_order agent q w)
    unfolding cancel_order
    cancel_order-Held q = cancel_order_by (w.heap q).status q refl

    pub cancel_orders-Held :
        (qs : List ℕ) → All (IsUnderWay w) qs → Held p o (cancel_orders agent qs w)
    unfolding cancel_orders unique values
    cancel_orders-Held qs a =
        let n = All-map _ (λ q. q ≢ p) qs (λ q u. apart-active w h final q u) a in
        let all = unique_map-All agent (λ q. q ≢ p) w qs [] n tt in
        let sorted = sort_targets-Held (unique agent w qs) [] w all tt h in
        settle_cancels-Held (unique agent w qs) _ _ all (cancel_targets-Held _ _ sorted.1 sorted.0)
