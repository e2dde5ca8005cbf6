-- ===== src/Deals/AmendLimit.antt =====
-- The limit on amendments of domains/deals/order.go: `incAmendCount` has no caller, so that the count
-- that `isAmendAble` compares stays as it was.
use lapuacore.Common.{
  ℕ, ◌≡◌, refl, inl, inr, Bool, Option, none, some, arith, if◌then◌else◌, ◌∙◌, ap, Option-cases,
  Bool-cases, ltb, ◌||◌,
}
use lapuacore.Domains.Decimal.{Decimal}
use lapuacore.Deals.Errors.{Err, is_info, is_warn, is_http_request}
use lapuacore.Deals.Order.{
  Order, OrderStatus, AmendDetail, pending, set_status, set_amending_detail, amend,
  set_sent_timestamp, set_confirm_timestamps, set_order_done_reason, record_last_operated_timestamp,
  is_amend_able, is_need_to_amend, limit_n_of_amend,
}
use lapuacore.Deals.World.{World, Agent, update, modify, spawn, call_agent}
use lapuacore.Deals.Outcome.{retire, accept_amend, reject_amend, abandon_order}
use lapuacore.Deals.Messages.{AmendOrderResp}
use lapuacore.Deals.Dealer.{is_living, settle_amend, start_amend, try_amend, amend_now}
use lapuacore.Deals.Handlers.{
  handle_amend_order_resp, locked_amend, amend_outcome, refuse_amend, notice_error, notify,
  stop_accepting, find_living, is_amending,
}

-- No order of the second world has another count than in the first.
pub record SameCounts {D : Type 0} (w u : World D) : Type 0 where
  pub same : (q : ℕ) → (u.heap q).amend_count ≡ (w.heap q).amend_count

module _ {D : Type 0} where
  counts_here : (w : World D) → SameCounts w w
  counts_here w = record { same = λ q. refl }

  counts_then : {w u x : World D} → SameCounts w u → SameCounts u x → SameCounts w x
  counts_then a b = record { same = λ q. b.same q ∙ a.same q }

module _ {D : Type 0} where
  modify-SameCounts :
      (p : ℕ) (f : Order D → Order D) (w : World D)
      → (f (w.heap p)).amend_count ≡ (w.heap p).amend_count
      → SameCounts w (modify p f w)
  unfolding modify update
  modify-SameCounts p f w e = record { same = λ q. ground arith }

  branch :
      (b : Bool) (w x y : World D)
      → SameCounts w x
      → SameCounts w y
      → SameCounts w (if b then x else y)
  branch Bool.true w x y h k = h
  branch Bool.false w x y h k = k

  notice_error-SameCounts : (e : Err) (w : World D) → SameCounts w (notice_error e w)
  unfolding notice_error notify stop_accepting
  notice_error-SameCounts e w = branch (is_info e) w _ _ (counts_here w) (
      branch (is_warn e || is_http_request e) w _ _ (record { same = λ q. refl })
        (record { same = λ q. refl }))

  reject_amend-SameCounts : (p : ℕ) (w : World D) → SameCounts w (reject_amend p w)
  unfolding reject_amend spawn set_amending_detail set_status
  reject_amend-SameCounts p w = record { same = λ q. (modify-SameCounts p _ w refl).same q }

  abandon_order-SameCounts : (p : ℕ) (w : World D) → SameCounts w (abandon_order p w)
  unfolding abandon_order retire set_sent_timestamp set_order_done_reason set_status
  abandon_order-SameCounts p w = record { same = λ q. (modify-SameCounts p _ w refl).same q }

  amend_outcome-SameCounts :
      (err : Option Err) (p : ℕ) (resp : AmendOrderResp D) (w : World D)
      → SameCounts w (amend_outcome err p resp w)
  unfolding amend_outcome refuse_amend accept_amend spawn set_confirm_timestamps set_sent_timestamp
      amend set_amending_detail set_status
  amend_outcome-SameCounts (some e) p resp w =
      branch _ w _ _ (abandon_order-SameCounts p w)
        (counts_then (reject_amend-SameCounts p w) (notice_error-SameCounts e (reject_amend p w)))
  amend_outcome-SameCounts none p resp w = record {
    same = λ q. (modify-SameCounts p _ w refl).same q;
  }

  -- `handleAmendOrderResp` counts no amendment, whatever the response.
  pub handle_amend_order_resp-SameCounts :
      (resp : AmendOrderResp D) (err : Option Err) (w : World D)
      → SameCounts w (handle_amend_order_resp resp err w)
  unfolding handle_amend_order_resp locked_amend
  handle_amend_order_resp-SameCounts resp err w =
      elim (Option-cases (find_living is_amending resp.order_id w)) [
        | inl e ↦ rw (e, locked_amend) (counts_here w)
        | inr (p, e) ↦ rw (e, locked_amend) (amend_outcome-SameCounts _ p resp w)
      ]

module _ {D : Type 0} ⦃d : Decimal D⦄ (agent : Agent D) (p : ℕ) (detail : AmendDetail D) where
  settle_amend-SameCounts :
      (w u : World D) (err : Option Err)
      → SameCounts w u
      → SameCounts w (settle_amend agent p (u, err)).0
  unfolding settle_amend
  settle_amend-SameCounts w u none h = h
  settle_amend-SameCounts w u (some e) h = counts_then h (reject_amend-SameCounts p u)

  asked : (w : World D) → SameCounts w (start_amend agent pending p detail w).0
  unfolding start_amend call_agent modify update record_last_operated_timestamp set_amending_detail
      set_status
  asked w = record { same = λ q. ground arith }

  start_amend-SameCounts :
      (s : OrderStatus) (w : World D)
      → SameCounts w (settle_amend agent p (start_amend agent s p detail w)).0
  unfolding start_amend call_agent record_last_operated_timestamp set_amending_detail set_status
  start_amend-SameCounts pending w = settle_amend-SameCounts w _ _ (asked w)
  start_amend-SameCounts s w = settle_amend-SameCounts w w _ (counts_here w)

  try_amend-SameCounts :
      (w : World D) → SameCounts w (settle_amend agent p (try_amend agent p detail w)).0
  unfolding try_amend
  try_amend-SameCounts w = elim (Bool-cases (is_amend_able (w.heap p))) [
    | inr no' ↦ rw no' (settle_amend-SameCounts w w _ (counts_here w))
    | inl yes' ↦ elim (Bool-cases (is_need_to_amend (w.heap p) detail)) [
      | inr same' ↦ rw (yes', same') (settle_amend-SameCounts w w none (counts_here w))
      | inl new ↦ rw (yes', new) (start_amend-SameCounts (w.heap p).status w)
    ]
  ]

  -- `amendOrder` counts no amendment, whatever the agent answers.
  pub amend_now-SameCounts : (w : World D) → SameCounts w (amend_now agent p detail w).0
  unfolding amend_now spawn
  amend_now-SameCounts w = elim (Bool-cases (is_living w p)) [
    | inl living ↦ rw living (try_amend-SameCounts w)
    | inr gone ↦ rw gone (record { same = λ q. refl })
  ]

  -- An amendment, from its request to a response, whatever both give, moves no order nearer to the limit:
  -- `isAmendAble` answers the same for every order.
  pub amend_round-is_amend_able :
      (resp : AmendOrderResp D) (err : Option Err) (w : World D) (q : ℕ)
      → is_amend_able ((handle_amend_order_resp resp err (amend_now agent p detail w).0).heap q)
        ≡ is_amend_able (w.heap q)
  unfolding is_amend_able
  amend_round-is_amend_able resp err w q =
      ap (λ n. ltb n limit_n_of_amend)
        ((counts_then (amend_now-SameCounts w) (handle_amend_order_resp-SameCounts resp err _)).same
          q)
