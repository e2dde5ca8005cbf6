-- ===== src/Deals/Invariant/Outcomes.antt =====
-- The accept and reject methods of domains/deals/dealing_handlers.go keep the books in order, where
-- the order is under way.
use lapuacore.Common.{
  ℕ, ◌≡◌, refl, sym, ◌≢◌, ◌⊎◌, inl, inr, Option, none, List, [], ◌∷◌, String, arith, All, All-map,
  string_eq,
}
use lapuacore.Deals.Order.{
  Order, AmendDetail, amending, done, set_status, set_order_done_reason, set_public_id,
  set_amending_detail, set_sent_timestamp, set_confirm_timestamps, amend,
}
use lapuacore.Domains.Commons.{OrderType, limit_ioc}
use lapuacore.Deals.World.{World, update, modify, spawn}
use lapuacore.Deals.Outcome.{
  retire, accept_filled, accept_partially_filled, accept_partially_filled_by, accept_amend,
  accept_create, accept_cancel, reject_amend, reject_create, reject_cancel, reject_amends,
  reject_cancels, abandon_order,
}
use lapuacore.Deals.Invariant.Books.{IsConsistent, kind, active_kind, foreign_kind}
use lapuacore.Deals.Invariant.Changes.{alter-Books, retire-Books}

abbrev pub IsUnderWay : {D : Type 0} → World D → ℕ → Type 0
IsUnderWay w p = kind (w.heap p).status ≡ active_kind

pub update_self : {D : Type 0} (h : ℕ → Order D) (p : ℕ) (o : Order D) → update h p o p ≡ o
unfolding update
update_self h p o = ground arith

pub modify_self :
    {D : Type 0} (w : World D) (p : ℕ) (f : Order D → Order D)
    → (modify p f w).heap p ≡ f (w.heap p)
unfolding modify
modify_self w p f = update_self w.heap p (f (w.heap p))

-- An order other than the one that is altered.
pub modify_ne :
    {D : Type 0} (w : World D) (p q : ℕ) (f : Order D → Order D)
    → p ≢ q
    → (modify p f w).heap q ≡ w.heap q
unfolding modify update
modify_ne w p q f n = ground arith

module _ {D : Type 0} (w : World D) (v : IsConsistent w) (p : ℕ) where
  pub modify-IsConsistent :
      (f : Order D → Order D)
      → (f (w.heap p)).id ≡ (w.heap p).id
      → kind (f (w.heap p)).status ≡ kind (w.heap p).status
      → ((f (w.heap p)).public_id ≡ (w.heap p).public_id)
        ⊎ (kind (f (w.heap p)).status ≢ foreign_kind)
      → ((f (w.heap p)).status ≡ amending → (f (w.heap p)).amending_detail ≢ none)
      → IsConsistent (modify p f w)
  unfolding modify
  modify-IsConsistent f i k s d = alter-Books v p (f (w.heap p)) i k s d

  finish-IsConsistent :
      (f : Order D → Order D)
      → (f (w.heap p)).id ≡ (w.heap p).id
      → IsUnderWay w p
      → (f (w.heap p)).status ≡ done
      → IsConsistent (retire p (modify p f w))
  unfolding modify retire
  finish-IsConsistent f i a s =
      rw (update_self w.heap p (f (w.heap p))) (retire-Books v p (f (w.heap p)) i a s)

  module _ (a : IsUnderWay w p) where
    pub accept_filled-IsConsistent : IsConsistent (accept_filled p w)
    unfolding accept_filled spawn set_order_done_reason set_status
    accept_filled-IsConsistent = finish-IsConsistent _ refl a refl

    partially_filled_by : (t : OrderType) → IsConsistent (accept_partially_filled_by t p w)
    unfolding accept_partially_filled_by spawn set_order_done_reason set_status
    partially_filled_by limit_ioc = finish-IsConsistent _ refl a refl
    partially_filled_by _ = v

    pub accept_partially_filled-IsConsistent : IsConsistent (accept_partially_filled p w)
    unfolding accept_partially_filled
    accept_partially_filled-IsConsistent = partially_filled_by (w.heap p).order_type

    pub accept_cancel-IsConsistent : IsConsistent (accept_cancel p w)
    unfolding accept_cancel spawn set_order_done_reason set_status
    accept_cancel-IsConsistent = finish-IsConsistent _ refl a refl

    pub reject_create-IsConsistent : IsConsistent (reject_create p w)
    unfolding reject_create spawn set_order_done_reason set_status
    reject_create-IsConsistent = finish-IsConsistent _ refl a refl

    pub abandon_order-IsConsistent : IsConsistent (abandon_order p w)
    unfolding abandon_order set_order_done_reason set_status set_sent_timestamp
    abandon_order-IsConsistent = finish-IsConsistent _ refl a refl

    pub reject_amend-IsConsistent : IsConsistent (reject_amend p w)
    unfolding reject_amend spawn set_amending_detail set_status
    reject_amend-IsConsistent = modify-IsConsistent _ refl (sym a) (inl refl) (λ e. cc)

    pub reject_cancel-IsConsistent : IsConsistent (reject_cancel p w)
    unfolding reject_cancel spawn set_status
    reject_cancel-IsConsistent = modify-IsConsistent _ refl (sym a) (inl refl) (λ e. cc)

    pub accept_amend-IsConsistent :
        (detail : AmendDetail D) (arrived confirmed : Option ℕ)
        → IsConsistent (accept_amend p detail arrived confirmed w)
    unfolding accept_amend spawn set_amending_detail set_status amend set_sent_timestamp
        set_confirm_timestamps
    accept_amend-IsConsistent detail arrived confirmed =
        modify-IsConsistent _ refl (sym a) (inl refl) (λ e. cc)

    pub accept_create-IsConsistent :
        (public_id : String) (arrived confirmed : Option ℕ)
        → IsConsistent (accept_create p public_id arrived confirmed w)
    unfolding accept_create spawn set_public_id set_status set_sent_timestamp set_confirm_timestamps
    accept_create-IsConsistent public_id arrived confirmed =
        modify-IsConsistent _ (ground arith) (ground arith) (inr (λ e. ground arith))
          (λ e. ground arith)

module _ {D : Type 0} where
  -- An order that is under way stays so when others, or its outcome, change.
  pub active_elsewhere :
      (w : World D) (p q : ℕ) (f : Order D → Order D)
      → kind (f (w.heap p)).status ≡ active_kind
      → IsUnderWay w q
      → IsUnderWay (modify p f w) q
  unfolding modify update
  active_elsewhere w p q f a b = ground arith

  reject_amend-active : (w : World D) (p q : ℕ) → IsUnderWay w q → IsUnderWay (reject_amend p w) q
  unfolding reject_amend spawn set_amending_detail set_status
  reject_amend-active w p q a = active_elsewhere w p q _ refl a

  reject_cancel-active : (w : World D) (p q : ℕ) → IsUnderWay w q → IsUnderWay (reject_cancel p w) q
  unfolding reject_cancel spawn set_status
  reject_cancel-active w p q a = active_elsewhere w p q _ refl a

  pub reject_amends-IsConsistent :
      (ps : List ℕ) (w : World D)
      → IsConsistent w
      → All (IsUnderWay w) ps
      → IsConsistent (reject_amends ps w)
  unfolding reject_amends
  reject_amends-IsConsistent [] w v a = v
  reject_amends-IsConsistent (p ∷ ps) w v a =
      reject_amends-IsConsistent ps (reject_amend p w) (reject_amend-IsConsistent w v p a.0)
        (All-map (IsUnderWay w) _ ps (reject_amend-active w p) a.1)

  pub reject_cancels-IsConsistent :
      (ps : List ℕ) (w : World D)
      → IsConsistent w
      → All (IsUnderWay w) ps
      → IsConsistent (reject_cancels ps w)
  unfolding reject_cancels
  reject_cancels-IsConsistent [] w v a = v
  reject_cancels-IsConsistent (p ∷ ps) w v a =
      reject_cancels-IsConsistent ps (reject_cancel p w) (reject_cancel-IsConsistent w v p a.0)
        (All-map (IsUnderWay w) _ ps (reject_cancel-active w p) a.1)
