-- ===== src/Deals/Deferred.antt =====
-- The deferred operations of domains/deals/dealer.go: what `AmendOrder` leaves
-- behind on an order whose last operation has not been answered, and what runs after the answer.
use lapuacore.Common.{
  ℕ, ◌≡◌, refl, true, false, Option, none, some, List, [], ◌∷◌, ◌++◌, arith, string_eq, ◌∙◌,
}
use lapuacore.Mutex.Map.{get}
use lapuacore.Mutex.Map.Laws.{get-set_self}
use lapuacore.Domains.Decimal.{Decimal}
use lapuacore.Domains.Commons.{is_taker}
use lapuacore.Deals.Errors.{Err}
use lapuacore.Deals.Order.{
  AmendDetail, Callback, amend_later, sending, pending, differs, current_detail, is_amend_able,
  is_need_to_amend, set_create_callback,
}
use lapuacore.Deals.World.{World, Agent, amend_req, update, modify, spawn, call_agent}
use lapuacore.Deals.Outcome.{reject_amend}
use lapuacore.Deals.Dealer.{
  is_living, settle_amend, try_amend, amend_now, defer_amend, set_amending, amend_order,
  run_callback, or_captured, drop_amending,
}

module _ {D : Type 0} ⦃d : Decimal D⦄ (agent : Agent D) (p : ℕ) where
  -- Calls of `AmendOrder` one after the other.
  unfoldable pub amend_each : List (AmendDetail D) → World D → World D
  amend_each [] w = w
  amend_each (detail ∷ details) w = amend_each details (amend_order agent p detail w).0

  abbrev pub latest : AmendDetail D → List (AmendDetail D) → AmendDetail D
  latest detail [] = detail
  latest detail (next ∷ details) = latest next details

  -- An order that is being sent and takes deferred amendments.
  pub record IsWaiting (w : World D) : Type 0 where
    pub accepting : w.dealer.accept_order ≡ true
    pub is_sent : (w.heap p).status ≡ sending
    pub maker : is_taker (w.heap p).order_type ≡ false

  abbrev pub deferred_detail : World D → Option (AmendDetail D)
  deferred_detail w = get (w.heap p).id w.dealer.amending_detail_map

  amend_order-sending :
      (detail : AmendDetail D) (w : World D)
      → IsWaiting w
      → (amend_order agent p detail w).0 ≡ defer_amend agent set_create_callback p detail w
  unfolding amend_order
  amend_order-sending detail w s = simp (s.accepting, s.is_sent)

  deferred-set_amending :
      (detail : AmendDetail D) (x : World D)
      → deferred_detail (set_amending p detail x) ≡ some detail
  unfolding set_amending
  deferred-set_amending detail x = get-set_self (x.heap p).id detail x.dealer.amending_detail_map

  registered :
      (c : Callback D) (w : World D)
      → IsWaiting w
      → let x = modify p (set_create_callback c) w in
        IsWaiting x × ((x.heap p).create_callbacks ≡ (w.heap p).create_callbacks ++ c ∷ [])
  unfolding modify update set_create_callback
  registered c w s = (
    record { accepting = s.accepting; is_sent = ground arith; maker = ground arith },
    ground arith,
  )

  set_amending-IsWaiting :
      (detail : AmendDetail D) (x : World D) → IsWaiting x → IsWaiting (set_amending p detail x)
  unfolding set_amending
  set_amending-IsWaiting detail x s = record {
    accepting = s.accepting;
    is_sent = s.is_sent;
    maker = s.maker;
  }

  stored :
      (detail : AmendDetail D) (x : World D)
      → IsWaiting x
      → let u = set_amending p detail x in
        IsWaiting u
        × (deferred_detail u ≡ some detail)
        × ((u.heap p).create_callbacks ≡ (x.heap p).create_callbacks)
  stored detail x s = (
    set_amending-IsWaiting detail x s,
    deferred-set_amending detail x,
    unfold set_amending in refl,
  )

  first_amend :
      (detail : AmendDetail D) (w : World D)
      → IsWaiting w
      → deferred_detail w ≡ none
      → let u = (amend_order agent p detail w).0 in
        IsWaiting u
        × (deferred_detail u ≡ some detail)
        × ((u.heap p).create_callbacks ≡ (w.heap p).create_callbacks ++ amend_later p detail ∷ [])
  unfolding defer_amend
  first_amend detail w s n =
      let x = modify p (set_create_callback (amend_later p detail)) w in
      let r = registered (amend_later p detail) w s in
      let t = stored detail x r.0 in
      rw (amend_order-sending detail w s, defer_amend, n) (t.0, t.1, t.2 ∙ r.1)

  later_amend :
      (detail old : AmendDetail D) (w : World D)
      → IsWaiting w
      → deferred_detail w ≡ some old
      → let u = (amend_order agent p detail w).0 in
        IsWaiting u
        × (deferred_detail u ≡ some detail)
        × ((u.heap p).create_callbacks ≡ (w.heap p).create_callbacks)
  unfolding defer_amend
  later_amend detail old w s n =
      rw (amend_order-sending detail w s, defer_amend, n) (stored detail w s)

  later_amends :
      (details : List (AmendDetail D)) (old : AmendDetail D) (w : World D)
      → IsWaiting w
      → deferred_detail w ≡ some old
      → let u = amend_each details w in
        IsWaiting u
        × (deferred_detail u ≡ some (latest old details))
        × ((u.heap p).create_callbacks ≡ (w.heap p).create_callbacks)
  unfolding amend_each
  later_amends [] old w s n = (s, n, refl)
  later_amends (detail ∷ details) old w s n =
      let one = later_amend detail old w s n in
      let rest = later_amends details detail _ one.0 one.1 in (rest.0, rest.1, rest.2 ∙ one.2)

  -- Amendments of an order that is being sent, by a dealer that accepts orders, where the order is of
  -- no taker type and none has been deferred before: the order stays in Sending, the map holds the
  -- last detail alone, and one callback is registered, however many amendments there are.
  pub amend_each-sending :
      (detail : AmendDetail D) (details : List (AmendDetail D)) (w : World D)
      → IsWaiting w
      → deferred_detail w ≡ none
      → let u = amend_each (detail ∷ details) w in
        ((u.heap p).status ≡ sending)
        × (deferred_detail u ≡ some (latest detail details))
        × ((u.heap p).create_callbacks ≡ (w.heap p).create_callbacks ++ amend_later p detail ∷ [])
  unfolding amend_each
  amend_each-sending detail details w s n =
      let one = first_amend detail w s n in
      let rest = later_amends details detail _ one.0 one.1 in
      (rest.0.is_sent, rest.1, rest.2 ∙ one.2)

  -- An order that `amendOrder` would send an amendment for.
  pub record CanAmend (detail : AmendDetail D) (w : World D) : Type 0 where
    pub living : is_living w p ≡ true
    pub is_pending : (w.heap p).status ≡ pending
    pub below_limit : is_amend_able (w.heap p) ≡ true
    pub changes : differs (current_detail (w.heap p)) detail ≡ true

  settle_amend-requests :
      (r : World D × Option Err) → (settle_amend agent p r).0.requests ≡ r.0.requests
  unfolding settle_amend reject_amend spawn modify
  settle_amend-requests (w, none) = refl
  settle_amend-requests (w, some e) = refl

  try_amend-requests :
      (detail : AmendDetail D) (w : World D)
      → CanAmend detail w
      → (try_amend agent p detail w).0.requests ≡ amend_req p detail ∷ w.requests
  unfolding try_amend call_agent is_need_to_amend modify
  try_amend-requests detail w c = simp (c.below_limit, c.is_pending, c.changes)

  -- `amendOrder` of a living pending order, below the limit on amendments, to a detail that changes
  -- it asks the agent once, for exactly this amendment, whatever the agent answers.
  amend_now-requests :
      (detail : AmendDetail D) (w : World D)
      → CanAmend detail w
      → (amend_now agent p detail w).0.requests ≡ amend_req p detail ∷ w.requests
  unfolding amend_now
  amend_now-requests detail w c =
      simp c.living
        (settle_amend-requests (try_amend agent p detail w) ∙ try_amend-requests detail w c)

  pub run_callback-requests :
      (captured : AmendDetail D) (w : World D)
      → CanAmend (or_captured agent (deferred_detail w) captured) w
      → (run_callback agent (amend_later p captured) p w).requests
        ≡ amend_req p (or_captured agent (deferred_detail w) captured) ∷ w.requests
  unfolding run_callback drop_amending
  run_callback-requests captured w c =
      amend_now-requests (or_captured agent (deferred_detail w) captured) (drop_amending p w)
        (record {
          living = unfold is_living in c.living;
          is_pending = c.is_pending;
          below_limit = c.below_limit;
          changes = c.changes;
        })
