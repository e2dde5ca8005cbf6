-- ===== src/Deals/Invariant/Creates.antt =====
-- `SendOrders` of domains/deals/dealer.go and `handleSendOrdersResp` of dealing_handlers.go keep the
-- books in order, for orders with distinct IDs.
use lapuacore.Common.{
  ℕ, ◌<◌, ◌≡◌, refl, sym, ◌≢◌, inl, inr, Bool, false, Option, none, some, List, [], ◌∷◌, String,
  arith, All, All-map, string_eq, Bool-cases, Option-cases, ◌∙◌, ap, is_some,
}
use lapuacore.Mutex.Map.{Map, get, set, gets, get_keys}
use lapuacore.Mutex.Map.Laws.{get-set_ne}
use lapuacore.Deals.Errors.{Err}
use lapuacore.Deals.Order.{OrderStatus, born, set_status, record_last_operated_timestamp}
use lapuacore.Deals.World.{World, Agent, update, modify, spawn, call_agent}
use lapuacore.Deals.Outcome.{retire, reject_create, reject_creates}
use lapuacore.Deals.Messages.{CreateOrderResp}
use lapuacore.Deals.Dealer.{
  register, start_operation, is_living, any_living, register_all, settle_creates, send_orders,
}
use lapuacore.Deals.Handlers.{
  keep_all, find_all_living, handle_send_orders_resp, handle_send_order_resp, is_sending,
}
use lapuacore.Deals.Invariant.Books.{IsConsistent, kind, NotIn, Distinct}
use lapuacore.Deals.Invariant.Outcomes.{
  IsUnderWay, active_elsewhere, modify_ne, modify_self, reject_create-IsConsistent,
}
use lapuacore.Deals.Invariant.Operations.{register-IsConsistent}
use lapuacore.Deals.Invariant.Handled.{
  notice_error-IsConsistent, handle_send_order_resp-IsConsistent, sending_kind,
}
use lapuacore.Deals.Invariant.Batches.{find_all_living-active, each_resp-IsConsistent}

abbrev pub DistinctKeys : List String → Type 0
DistinctKeys [] = Unit {0}
DistinctKeys (k ∷ ks) = All (λ j. k ≢ j) ks × DistinctKeys ks

module _ {D : Type 0} where
  abbrev pub DistinctIds : World D → List ℕ → Type 0
  DistinctIds w [] = Unit {0}
  DistinctIds w (p ∷ ps) = All (λ q. (w.heap p).id ≢ (w.heap q).id) ps × DistinctIds w ps

  -- An order that `SendOrders` can register: created, allocated, and not living.
  abbrev pub IsNew : World D → ℕ → Type 0
  IsNew w p =
      ((w.heap p).status ≡ born) × (p < w.next) × (get (w.heap p).id w.dealer.living_orders ≡ none)

  reject_create_elsewhere :
      (w : World D) (p q : ℕ) → p ≢ q → IsUnderWay w q → IsUnderWay (reject_create p w) q
  unfolding reject_create retire spawn
  reject_create_elsewhere w p q n a = ap (λ o. kind o.status) (modify_ne w p q _ n) ∙ a

  keep_elsewhere :
      (w : World D) (p : ℕ) (ps : List ℕ)
      → NotIn p ps
      → All (IsUnderWay w) ps
      → All (IsUnderWay (reject_create p w)) ps
  keep_elsewhere w p [] n a = tt
  keep_elsewhere w p (q ∷ ps) n a =
      (reject_create_elsewhere w p q n.0 a.0, keep_elsewhere w p ps n.1 a.1)

  pub reject_creates-IsConsistent :
      (ps : List ℕ) (w : World D)
      → IsConsistent w
      → All (IsUnderWay w) ps
      → Distinct ps
      → IsConsistent (reject_creates ps w)
  unfolding reject_creates
  reject_creates-IsConsistent [] w v a n = v
  reject_creates-IsConsistent (p ∷ ps) w v a n =
      reject_creates-IsConsistent ps (reject_create p w) (reject_create-IsConsistent w v p a.0)
        (keep_elsewhere w p ps n.0 a.1) n.1

  not_living :
      (w : World D) (p : ℕ)
      → get (w.heap p).id w.dealer.living_orders ≡ none
      → is_living w p ≡ false
  unfolding is_living
  not_living w p e = ap is_some e

  module _ (w : World D) (p : ℕ) where
    register_id : (q : ℕ) → ((register p w).heap q).id ≡ (w.heap q).id
    unfolding register start_operation modify update record_last_operated_timestamp set_status
    register_id q = ground arith

    register_active : (q : ℕ) → IsUnderWay w q → IsUnderWay (register p w) q
    unfolding register start_operation record_last_operated_timestamp set_status
    register_active q a = active_elsewhere _ p q _ refl a

    register_active_self : IsUnderWay (register p w) p
    unfolding register start_operation record_last_operated_timestamp set_status
    register_active_self = ap (λ o. kind o.status) (modify_self _ p _)

    register_elsewhere : (q : ℕ) → p ≢ q → (register p w).heap q ≡ w.heap q
    unfolding register start_operation modify update
    register_elsewhere q n = ground arith

    register-IsNew : (q : ℕ) → (w.heap p).id ≢ (w.heap q).id → IsNew w q → IsNew (register p w) q
    unfolding register start_operation modify
    register-IsNew q n a =
        let same : (register p w).heap q ≡ w.heap q =
          register_elsewhere q (λ e. n (ap (λ r. (w.heap r).id) e)) in
        (
          ap (λ o. o.status) same ∙ a.0,
          a.1,
          ap (λ o. get o.id (set (w.heap p).id p w.dealer.living_orders)) same
              ∙ get-set_ne (w.heap p).id (w.heap q).id p w.dealer.living_orders n
              ∙ a.2,
        )

  register_news :
      (w : World D) (p : ℕ) (ps : List ℕ)
      → All (λ q. (w.heap p).id ≢ (w.heap q).id) ps
      → All (IsNew w) ps
      → All (IsNew (register p w)) ps
  register_news w p [] n a = tt
  register_news w p (q ∷ ps) n a = (register-IsNew w p q n.0 a.0, register_news w p ps n.1 a.1)

  DistinctIds-map :
      (w u : World D) (ps : List ℕ)
      → ((q : ℕ) → (u.heap q).id ≡ (w.heap q).id)
      → DistinctIds w ps
      → DistinctIds u ps
  DistinctIds-map w u [] f d = tt
  DistinctIds-map w u (p ∷ ps) f d = (
    All-map _ (λ q. (u.heap p).id ≢ (u.heap q).id) ps (λ q n e. n (sym (f p) ∙ e ∙ f q)) d.0,
    DistinctIds-map w u ps f d.1,
  )

  register_all-keeps :
      (ps : List ℕ) (w : World D) (q : ℕ) → IsUnderWay w q → IsUnderWay (register_all ps w) q
  unfolding register_all
  register_all-keeps [] w q a = a
  register_all-keeps (p ∷ ps) w q a = register_all-keeps ps _ q (register_active w p q a)

  register_all-IsConsistent :
      (ps : List ℕ) (w : World D)
      → IsConsistent w
      → All (IsNew w) ps
      → DistinctIds w ps
      → IsConsistent (register_all ps w) × All (IsUnderWay (register_all ps w)) ps
  unfolding register_all
  register_all-IsConsistent [] w v a d = (v, tt)
  register_all-IsConsistent (p ∷ ps) w v a d =
      let rest =
        register_all-IsConsistent ps (register p w)
          (register-IsConsistent w v p (ap kind a.0.0) a.0.1 (not_living w p a.0.2))
          (register_news w p ps d.0 a.1)
          (DistinctIds-map w (register p w) ps (register_id w p) d.1) in
      (rest.0, (register_all-keeps ps _ p (register_active_self w p), rest.1))

  Distinct-of_ids : (w : World D) (ps : List ℕ) → DistinctIds w ps → Distinct ps
  Distinct-of_ids w [] d = tt
  Distinct-of_ids w (p ∷ ps) d = (
    All-map _ (λ q. p ≢ q) ps (λ q n e. n (ap (λ r. (w.heap r).id) e)) d.0,
    Distinct-of_ids w ps d.1,
  )

  not_any_living :
      (w : World D) (ps : List ℕ)
      → any_living w ps ≡ false
      → All (λ p. ((w.heap p).status ≡ born) × (p < w.next)) ps
      → All (IsNew w) ps
  unfolding any_living is_living
  not_any_living w [] e a = tt
  not_any_living w (p ∷ ps) e a =
      ((a.0.0, a.0.1, ground arith), not_any_living w ps (ground arith) a.1)

module _ {D : Type 0} (agent : Agent D) where
  settle-creates :
      (ps : List ℕ) (w : World D) (err : Option Err)
      → IsConsistent w
      → All (IsUnderWay w) ps
      → Distinct ps
      → IsConsistent (settle_creates agent ps (w, err)).0
  unfolding settle_creates
  settle-creates ps w none v a d = v
  settle-creates ps w (some e) v a d = reject_creates-IsConsistent ps w v a d

  -- `SendOrders` of created orders with distinct IDs, whatever the agent answers.
  pub send_orders-IsConsistent :
      (ps : List ℕ) (w : World D)
      → IsConsistent w
      → All (λ p. ((w.heap p).status ≡ born) × (p < w.next)) ps
      → DistinctIds w ps
      → IsConsistent (send_orders agent ps w).0
  unfolding send_orders call_agent
  send_orders-IsConsistent ps w v a d = elim (Bool-cases w.dealer.accept_order) [
    | inr e ↦ simp e v
    | inl e ↦ elim (Bool-cases (any_living w ps)) [
      | inl old ↦ simp (e, old) v
      | inr new ↦
          simp (e, new)
            (let all = register_all-IsConsistent ps w v (not_any_living w ps new a) d in
              settle-creates ps _ _ all.0 all.1 (Distinct-of_ids w ps d))
    ]
  ]

module _ {D : Type 0} (w : World D) (v : IsConsistent w) where
  kept_ids :
      (test : OrderStatus → Bool) (ks : List String) (p : ℕ)
      → All (λ j. (w.heap p).id ≢ j) ks
      → NotIn p (keep_all test w (gets ks w.dealer.living_orders))
  unfolding keep_all gets
  kept_ids test [] p n = tt
  kept_ids test (k ∷ ks) p n = elim (Option-cases (get k w.dealer.living_orders)) [
    | inl e ↦ rw e (kept_ids test ks p n.1)
    | inr (q, e) ↦ rw e (elim (Bool-cases (test (w.heap q).status)) [
      | inl t ↦
          rw t ((λ s. n.0 (ap (λ r. (w.heap r).id) s ∙ (v.filed k q e).0)), kept_ids test ks p n.1)
      | inr t ↦ rw t (kept_ids test ks p n.1)
    ])
  ]

  keep_all-Distinct :
      (test : OrderStatus → Bool) (ks : List String)
      → DistinctKeys ks
      → Distinct (keep_all test w (gets ks w.dealer.living_orders))
  unfolding keep_all gets
  keep_all-Distinct test [] d = tt
  keep_all-Distinct test (k ∷ ks) d = elim (Option-cases (get k w.dealer.living_orders)) [
    | inl e ↦ rw e (keep_all-Distinct test ks d.1)
    | inr (q, e) ↦ rw e (elim (Bool-cases (test (w.heap q).status)) [
      | inl t ↦ rw t (
        kept_ids test ks q (All-map _ _ ks (λ j n s. n (sym (v.filed k q e).0 ∙ s)) d.0),
        keep_all-Distinct test ks d.1,
      )
      | inr t ↦ rw t (keep_all-Distinct test ks d.1)
    ])
  ]

  -- `handleSendOrdersResp`, whatever the responses; the keys of a map are distinct.
  pub handle_send_orders_resp-IsConsistent :
      (resps : Map String CreateOrderResp) (err : Option Err)
      → DistinctKeys (get_keys resps)
      → IsConsistent (handle_send_orders_resp resps err w)
  unfolding handle_send_orders_resp
  handle_send_orders_resp-IsConsistent resps none d =
      each_resp-IsConsistent (λ r. handle_send_order_resp r none) resps
        (λ r u c. handle_send_order_resp-IsConsistent u c r none)
        (find_all_living is_sending (get_keys resps) w) w v
  handle_send_orders_resp-IsConsistent resps (some e) d = notice_error-IsConsistent _ e (
      reject_creates-IsConsistent (find_all_living is_sending (get_keys resps) w) w v
        (find_all_living-active is_sending sending_kind w (get_keys resps))
        (unfold find_all_living in keep_all-Distinct is_sending (get_keys resps) d))
