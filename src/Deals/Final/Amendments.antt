-- ===== src/Deals/Final/Amendments.antt =====
-- The amendments and the callbacks of domains/deals/dealer.go leave a done order alone.
use lapuacore.Common.{
  ℕ, ◌≡◌, refl, ap, ◌≢◌, inl, inr, not, Option, none, some, Bool-cases, is_some, string_eq,
}
use lapuacore.Mutex.Map.{get}
use lapuacore.Domains.Decimal.{Decimal}
use lapuacore.Deals.Errors.{Err}
use lapuacore.Deals.Order.{
  Order, OrderStatus, AmendDetail, Callback, amend_later, cancel_later, done, sending, pending,
  amending, set_create_callback, set_amend_callback, is_amend_able, is_need_to_amend,
}
use lapuacore.Deals.World.{World, Agent, spawn, call_agent}
use lapuacore.Deals.Dealer.{
  is_living, settle_amend, start_amend, try_amend, amend_now, defer_amend, set_amending,
  drop_amending, amend_order_by_status, amend_order, run_callback,
}
use lapuacore.Deals.Invariant.Books.{IsConsistent, kind}
use lapuacore.Deals.Invariant.Amendments.{OwnsId, owned_active}
use lapuacore.Deals.Final.Held.{
  Held, modify-Held, branch, branch_result, apart-active, reject_amend-Held,
}
use lapuacore.Deals.Final.Operations.{cancel_now-Held}

module _ {D : Type 0} ⦃d : Decimal D⦄ {p : ℕ} {o : Order D} (agent : Agent D) where
  settle_amend-Held :
      (q : ℕ) (w : World D) (err : Option Err)
      → q ≢ p
      → Held p o w
      → Held p o (settle_amend agent q (w, err)).0
  unfolding settle_amend
  settle_amend-Held q w none n h = h
  settle_amend-Held q w (some e) n h = reject_amend-Held w q n h

  start_amend-Held :
      (s : OrderStatus) (q : ℕ) (detail : AmendDetail D) (w : World D)
      → q ≢ p
      → Held p o w
      → Held p o (settle_amend agent q (start_amend agent s q detail w)).0
  unfolding start_amend call_agent
  start_amend-Held pending q detail w n h = settle_amend-Held q _ _ n (modify-Held q _ w n h)
  start_amend-Held s q detail w n h = settle_amend-Held q w _ n h

  try_amend-Held :
      (q : ℕ) (detail : AmendDetail D) (w : World D)
      → q ≢ p
      → Held p o w
      → Held p o (settle_amend agent q (try_amend agent q detail w)).0
  unfolding try_amend
  try_amend-Held q detail w n h = elim (Bool-cases (is_amend_able (w.heap q))) [
    | inr no' ↦ rw no' (settle_amend-Held q w _ n h)
    | inl yes' ↦ elim (Bool-cases (is_need_to_amend (w.heap q) detail)) [
      | inr same ↦ rw (yes', same) (settle_amend-Held q w none n h)
      | inl new ↦ rw (yes', new) (start_amend-Held (w.heap q).status q detail w n h)
    ]
  ]

  defer_amend-Held :
      (f : Callback D → Order D → Order D) (q : ℕ) (detail : AmendDetail D) (w : World D)
      → q ≢ p
      → Held p o w
      → Held p o (defer_amend agent f q detail w)
  unfolding defer_amend set_amending
  defer_amend-Held f q detail w n h =
      branch (is_some (get (w.heap q).id w.dealer.amending_detail_map)) _ _ h
        (modify-Held q _ w n h)

  module _ (w : World D) (v : IsConsistent w) (h : Held p o w) (final : o.status ≡ done) where
    pub amend_now-Held :
        (q : ℕ) (detail : AmendDetail D) → OwnsId w q → Held p o (amend_now agent q detail w).0
    unfolding amend_now spawn
    amend_now-Held q detail own = elim (Bool-cases (is_living w q)) [
      | inl living ↦ rw living (
          try_amend-Held q detail w
            (apart-active w h final q (owned_active agent w v q detail own living)) h)
      | inr gone ↦ rw gone h
    ]

    amend_by :
        (s : OrderStatus) (q : ℕ) (detail : AmendDetail D)
        → (w.heap q).status ≡ s
        → OwnsId w q
        → Held p o (amend_order_by_status agent s q detail w).0
    unfolding amend_order_by_status spawn
    amend_by done q detail e own = h
    amend_by pending q detail e own = amend_now-Held q detail own
    amend_by sending q detail e own =
        defer_amend-Held set_create_callback q detail w (apart-active w h final q (ap kind e)) h
    amend_by amending q detail e own =
        defer_amend-Held set_amend_callback q detail w (apart-active w h final q (ap kind e)) h
    amend_by _ q detail e own = h

    pub amend_order-Held :
        (q : ℕ) (detail : AmendDetail D) → OwnsId w q → Held p o (amend_order agent q detail w).0
    unfolding amend_order
    amend_order-Held q detail own =
        branch_result (not w.dealer.accept_order) _ _ h
          (amend_by (w.heap q).status q detail refl own)

module _ {D : Type 0} ⦃d : Decimal D⦄ {p : ℕ} {o : Order D} (agent : Agent D) where
  -- A goroutine that runs a callback.
  pub run_callback-Held :
      (w : World D)
      → IsConsistent w
      → Held p o w
      → o.status ≡ done
      → (c : Callback D) (q : ℕ)
      → ((r : ℕ) (detail : AmendDetail D) → c ≡ amend_later r detail → OwnsId w r)
      → Held p o (run_callback agent c q w)
  unfolding run_callback drop_amending
  run_callback-Held w v h final (Callback.user n) q own = h
  run_callback-Held w v h final (amend_later r captured) q own =
      amend_now-Held agent _ v h final r _ (own r captured refl)
  run_callback-Held w v h final cancel_later q own = cancel_now-Held agent w h final q
