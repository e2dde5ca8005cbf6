-- ===== src/Deals/Race.antt =====
-- Where domains/deals/ goes wrong: orders of events that the operation locks allow.
use lapuacore.Common.{
  ℕ, ◌≡◌, refl, inl, inr, true, Option, none, some, List, [], ◌∷◌, ◌++◌, arith, string_eq, ◌∙◌, ap,
  is_some, map, ◌⊎◌, All,
}
use mathlib.Core.List.{append_assoc}
use lapuacore.Mutex.Map.{get}
use lapuacore.Mutex.Slice.Laws.{append_unlimited}
use lapuacore.Domains.Decimal.{Decimal}
use lapuacore.Deals.Errors.{Err}
use lapuacore.Deals.Order.{
  Order, AmendDetail, amend_later, pending, amending, differs, current_detail, is_amend_able,
  set_status, set_amending_detail, amend, set_sent_timestamp, set_confirm_timestamps,
}
use lapuacore.Deals.World.{
  World, Agent, Request, amend_req, update, modify, spawn, call_agent, cancels_req,
}
use lapuacore.Deals.Outcome.{
  retire, accept_amend, accept_filled, accept_cancel, reject_cancel, reject_cancels,
}
use lapuacore.Deals.Messages.{CancelOrderResp, OrderData, filled}
use lapuacore.Deals.Handlers.{locked_cancel}
use lapuacore.Deals.Streams.{fill_living, set_order_fill_info}
use lapuacore.Deals.Dealer.{
  is_living, run_callback, cancel_orders, unique, sort_targets, cancel_targets, settle_cancels,
  start_all,
}
use lapuacore.Deals.Deferred.{CanAmend, run_callback-requests, deferred_detail}
use lapuacore.Deals.Invariant.Outcomes.{update_self}

module _ {D : Type 0} where
  -- A cancel response has found its order, and a fill takes the lock first.
  done-accept_cancel :
      (p : ℕ) (w : World D)
      → w.dealer.done_orders.max_len ≡ 0
      → (accept_cancel p w).dealer.done_orders
        ≡ record w.dealer.done_orders { a = w.dealer.done_orders.a ++ p ∷ [] }
  unfolding accept_cancel retire spawn modify
  done-accept_cancel p w u = append_unlimited p w.dealer.done_orders u

  done-accept_filled :
      (p : ℕ) (w : World D)
      → w.dealer.done_orders.max_len ≡ 0
      → (accept_filled p w).dealer.done_orders
        ≡ record w.dealer.done_orders { a = w.dealer.done_orders.a ++ p ∷ [] }
  unfolding accept_filled retire spawn modify
  done-accept_filled p w u = append_unlimited p w.dealer.done_orders u

  -- `handleCancelOrderResp` looks the order up before it takes the order's lock, and does not look
  -- again: where a fill is handled in between, and the response has no error, the order joins the done
  -- orders, which have no limit, twice.
  pub fill_during_cancel :
      (p : ℕ) (m : OrderData D) (resp : CancelOrderResp) (w : World D)
      → w.dealer.done_orders.max_len ≡ 0
      → resp.err ≡ none
      → let u = locked_cancel (some p) resp none (fill_living filled p m w) in
        u.dealer.done_orders.a ≡ w.dealer.done_orders.a ++ p ∷ p ∷ []
  unfolding locked_cancel fill_living
  fill_during_cancel p m resp w u e =
      let w1 = modify p (set_order_fill_info m) w in
      let filled_first = done-accept_filled p w1 (unfold modify in u) in
      let then_done =
        done-accept_cancel p (accept_filled p w1)
          (ap (λ s. s.max_len) filled_first ∙ (unfold modify in u)) in
      rw e (
        ap (λ s. s.a) then_done
        ∙ ap (λ s. s.a ++ p ∷ []) filled_first
        ∙ (unfold modify in append_assoc w.dealer.done_orders.a (p ∷ []) (p ∷ [])))

module _ {D : Type 0} ⦃d : Decimal D⦄ (agent : Agent D) (p : ℕ) where
  accepted :
      (new : AmendDetail D) (arrived confirmed : Option ℕ) (w : World D)
      → (accept_amend p new arrived confirmed w).heap p
        ≡ set_confirm_timestamps arrived confirmed (
            set_sent_timestamp
              (w.heap p).last_operated_at
              (amend new (set_amending_detail none (set_status pending (w.heap p)))))
  unfolding accept_amend spawn modify
  accepted new arrived confirmed w = update_self w.heap p _

  -- The callbacks of an accepted amendment stay on the order. A living order, below the limit on
  -- amendments, is being amended, still has the callback of an earlier deferred amendment, and none is
  -- deferred now: when the amendment to another detail is accepted, the callback is started again, and
  -- run on that world it asks the agent for the old detail.
  pub stale_amend :
      (old new : AmendDetail D) (arrived confirmed : Option ℕ) (w : World D)
      → is_living w p ≡ true
      → (w.heap p).status ≡ amending
      → (w.heap p).amend_callbacks ≡ amend_later p old ∷ []
      → deferred_detail agent p w ≡ none
      → is_amend_able (w.heap p) ≡ true
      → differs new old ≡ true
      → let u = accept_amend p new arrived confirmed w in
        (u.tasks ≡ w.tasks ++ (amend_later p old, p) ∷ [])
        × ((run_callback agent (amend_later p old) p u).requests ≡ amend_req p old ∷ w.requests)
  unfolding accept_amend spawn modify is_living is_amend_able set_confirm_timestamps
      set_sent_timestamp amend set_amending_detail set_status
  stale_amend old new arrived confirmed w l s c n b t =
      let u = accept_amend p new arrived confirmed w in
      let same = accepted new arrived confirmed w in
      let held : deferred_detail agent p u ≡ none =
        ap (λ o. get o.id w.dealer.amending_detail_map) same ∙ n in
      let can : CanAmend agent p old u = record {
        living = ap (λ o. is_some (get o.id w.dealer.living_orders)) same ∙ l;
        is_pending = ap (λ o. o.status) same;
        below_limit = ap (λ o. is_amend_able o) same ∙ b;
        changes = ap (λ o. differs (current_detail o) old) same ∙ t;
      } in
      (
        ap (λ cs. w.tasks ++ map (λ k. (k, p)) cs) c,
        rw held at (run_callback-requests agent p old u (rw held can)),
      )

module _ {D : Type 0} where
  reject_cancel-pending :
      (w : World D) (p q : ℕ)
      → (p ≡ q) ⊎ ((w.heap q).status ≡ pending)
      → ((reject_cancel p w).heap q).status ≡ pending
  unfolding reject_cancel spawn modify update set_status
  reject_cancel-pending w p q c = ground arith

  reject_cancels-keeps_pending :
      (ps : List ℕ) (w : World D) (q : ℕ)
      → (w.heap q).status ≡ pending
      → ((reject_cancels ps w).heap q).status ≡ pending
  unfolding reject_cancels
  reject_cancels-keeps_pending [] w q e = e
  reject_cancels-keeps_pending (p ∷ ps) w q e =
      reject_cancels-keeps_pending ps _ q (reject_cancel-pending w p q (inr e))

  reject_cancels-pending :
      (ps : List ℕ) (w : World D) → All (λ q. ((reject_cancels ps w).heap q).status ≡ pending) ps
  unfolding reject_cancels
  reject_cancels-pending [] w = tt
  reject_cancels-pending (p ∷ ps) w = (
    reject_cancels-keeps_pending ps _ p (reject_cancel-pending w p p (inl refl)),
    reject_cancels-pending ps (reject_cancel p w),
  )

module _ {D : Type 0} (agent : Agent D) where
  settle_refused :
      (ps : List ℕ) (s : World D × Option Err) (e : Err)
      → s.1 ≡ some e
      → All (λ q. ((settle_cancels agent ps s).heap q).status ≡ pending) ps
  unfolding settle_cancels
  settle_refused ps (w, none) e r = cc
  settle_refused ps (w, some f) e r = reject_cancels-pending ps w

  targets_refused :
      (r : World D × List ℕ) (e : Err) (t : ℕ) (ts : List ℕ)
      → ((h : ℕ → Order D) (rs : List (Request D))
          → agent.answer h rs (cancels_req (t ∷ ts)) ≡ some e)
      → r.1 ≡ t ∷ ts
      → (cancel_targets agent r).1 ≡ some e
  unfolding cancel_targets call_agent
  targets_refused (w, []) e t ts refuses found = cc
  targets_refused (w, x ∷ xs) e t ts refuses found =
      ap
        (λ l.
          agent.answer (start_all agent (x ∷ xs) w).heap (start_all agent (x ∷ xs) w).requests
            (cancels_req l))
        found
      ∙ refuses _ _

  -- Where there is a target and the agent refuses the batch of the targets, `CancelOrders` leaves every
  -- order of the call in Pending, those too that it did not try to cancel.
  pub cancel_orders_refused :
      (ps : List ℕ) (w : World D) (e : Err) (t : ℕ) (ts : List ℕ)
      → ((h : ℕ → Order D) (rs : List (Request D))
          → agent.answer h rs (cancels_req (t ∷ ts)) ≡ some e)
      → (sort_targets agent (unique agent w ps) (w, [])).1 ≡ t ∷ ts
      → All (λ q. ((cancel_orders agent ps w).heap q).status ≡ pending) (unique agent w ps)
  unfolding cancel_orders
  cancel_orders_refused ps w e t ts refuses found =
      settle_refused (unique agent w ps) _ e (targets_refused _ e t ts refuses found)
