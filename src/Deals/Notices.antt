-- ===== src/Deals/Notices.antt =====
-- domains/deals/dealing_handlers.go, `noticeError`: the errors that stop the dealer, and what a stopped
-- dealer still does.
use lapuacore.Common.{ℕ, ◌≡◌, refl, false, ◌||◌, some, List, ◌∷◌, arith}
use lapuacore.Domains.Decimal.{Decimal}
use lapuacore.Deals.Errors.{Err, wrapped, is_info, is_warn, is_http_request}
use lapuacore.Deals.Order.{AmendDetail}
use lapuacore.Deals.World.{World, Agent}
use lapuacore.Deals.Dealer.{send_order, send_orders, amend_order, not_accepting}
use lapuacore.Deals.Handlers.{notice_error, notify, stop_accepting}

-- An error that is none of the three kinds that let the dealer go on, below all of its messages.
abbrev pub IsCritical : Err → Type 0
IsCritical (wrapped e msg) = IsCritical e
IsCritical e = ((is_info e || is_warn e) || is_http_request e) ≡ false

critical_kinds :
    (e : Err)
    → IsCritical e
    → (is_info e ≡ false) × (is_warn e ≡ false) × (is_http_request e ≡ false)
unfolding is_info is_warn is_http_request
critical_kinds (wrapped e msg) c = critical_kinds e c
critical_kinds _ c = ground arith

module _ {D : Type 0} ⦃d : Decimal D⦄ where
  -- A critical error, wrapped in any messages, is reported and stops the dealer: from then on
  -- `SendOrder`, `SendOrders` and `AmendOrder` change nothing and return an error.
  pub notice_error-stops :
      (agent : Agent D) (e : Err) (w : World D)
      → IsCritical e
      → let u = notice_error e w in
        (u.notices ≡ e ∷ w.notices)
        × ((p : ℕ) → send_order agent p u ≡ (u, some not_accepting))
        × ((ps : List ℕ) → send_orders agent ps u ≡ (u, some not_accepting))
        × ((p : ℕ) (detail : AmendDetail D)
            → amend_order agent p detail u ≡ (u, some not_accepting))
  unfolding notice_error notify stop_accepting send_order send_orders amend_order
  notice_error-stops agent e w c =
      let (i, n, h) = critical_kinds e c in
      rw (i, n, h) (refl, (λ p. refl), (λ ps. refl), λ p detail. refl)
