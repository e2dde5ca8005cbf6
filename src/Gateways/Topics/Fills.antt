-- ===== src/Gateways/Topics/Fills.antt =====
-- Order messages of both exchanges, from the topics of internal/gateways/exchanges/*/ws/topics/ to the
-- dealer's `HandleOrderData`.
use lapuacore.Common.{
  ℕ, ◌≡◌, refl, sym, subst, ap, ◌∙◌, false, none, some, [], ◌∷◌, String, ◌==◌, string_eq, eq_refl,
}
use lapuacore.Mutex.Map.{get}
use lapuacore.Mutex.Map.Laws.{get-delete_self}
use lapuacore.Domains.Decimal.{Decimal}
use lapuacore.Domains.Commons.{OrderType, market}
use lapuacore.Deals.Order.{
  Order, done, filled_reason, set_filled_at, set_avg_price, set_exec_qty, set_fee,
  set_confirm_timestamps, set_sent_timestamp, set_status, set_order_done_reason,
}
use lapuacore.Deals.Messages.{OrderData, filled, is_unrelated}
use lapuacore.Deals.World.{World, modify, spawn}
use lapuacore.Deals.Outcome.{accept_filled, retire}
use lapuacore.Deals.Streams.{
  handle_order_data, handle_order_message, track_unrelated, fill_living, set_order_fill_info,
  set_order_partially_fill_info, fill_times,
}
use lapuacore.Deals.Invariant.Outcomes.{modify_self}
use lapuacore.Gateways.Messages.{Text, translated}
use lapuacore.Gateways.Messages.Bybit
use lapuacore.Gateways.Messages.Coinex
use lapuacore.Gateways.Topics.{
  call_handlers, deliver, deliver_by_symbol, datas_of_symbol, call_for_symbol, coinex_order_handler,
  bybit_order_handler,
}

module _ {D : Type 0} ⦃d : Decimal D⦄ where
  -- The order at `p` is done by the fill of the message and no longer living under its ID.
  abbrev pub IsFilledBy : OrderData D → ℕ → World D → Type 0
  IsFilledBy m p w =
      ((w.heap p).status ≡ done)
      × ((w.heap p).order_done_reason ≡ some filled_reason)
      × (get m.id w.dealer.living_orders ≡ none)

  fill_times_id : (m : OrderData D) (k : OrderType) (o : Order D) → (fill_times k m o).id ≡ o.id
  unfolding fill_times set_confirm_timestamps set_sent_timestamp
  fill_times_id m market o = refl
  fill_times_id m _ o = refl

  module _ (m : OrderData D) (p : ℕ) (w : World D) where
    fill_info-id : (o : Order D) → (set_order_fill_info m o).id ≡ o.id
    unfolding set_order_fill_info set_order_partially_fill_info fill_times set_filled_at
        set_avg_price set_exec_qty set_fee set_confirm_timestamps set_sent_timestamp
    fill_info-id o = fill_times_id m o.order_type _

    accepted : (w.heap p).id ≡ m.id → IsFilledBy m p (fill_living filled p m w)
    unfolding fill_living accept_filled retire spawn set_status set_order_done_reason
    accepted i =
        let w0 = modify p (set_order_fill_info m) w in
        let same : ((modify p (λ o. set_order_done_reason filled_reason (set_status done o))
                w0).heap
              p).id
            ≡ m.id =
          ap (λ o. o.id) (modify_self w0 p _)
          ∙ ap (λ o. o.id) (modify_self w p (set_order_fill_info m))
          ∙ fill_info-id (w.heap p)
          ∙ i in
        (
          ap (λ o. o.status) (modify_self w0 p _),
          ap (λ o. o.order_done_reason) (modify_self w0 p _),
          rw same (get-delete_self m.id _),
        )

    fill-IsFilledBy :
        m.status ≡ filled
        → (m.id == "") ≡ false
        → get m.id w.dealer.living_orders ≡ some p
        → (w.heap p).id ≡ m.id
        → IsFilledBy m p (handle_order_data (m ∷ []) w)
    unfolding handle_order_data handle_order_message track_unrelated is_unrelated
    fill-IsFilledBy s u g i =
        rw (u, g) (subst (λ k. IsFilledBy m p (fill_living k p m w)) (sym s) (accepted i))

    -- A filled order that an exchange reports, by a message that is translated to `m`, of an order that is
    -- living under the ID of the message: with the dealer as the topic's handler, the order is Done with the
    -- reason Filled, and not living any more. It holds for the topics of both exchanges, for Bybit with one
    -- entry for the dealer's symbol.
    pub order_handler-IsFilledBy :
        (t : Text D) (now : ℕ) (symbol : String) (c : Coinex.OrderDataDto) (b : Bybit.OrderDataDto)
        → Coinex.translate_order_data t (some now) c ≡ translated m
        → Bybit.translate_order_data t (some now) b ≡ translated m
        → m.status ≡ filled
        → (m.id == "") ≡ false
        → get m.id w.dealer.living_orders ≡ some p
        → (w.heap p).id ≡ m.id
        → ((w1 : World D) × (coinex_order_handler t (handle_order_data ∷ []) now c w
              ≡ translated w1)
            × IsFilledBy m p w1)
          × ((w1 : World D) × (bybit_order_handler t symbol
                  (handle_order_data ∷ [])
                  now
                  ((symbol, b) ∷ [])
                  w
                ≡ translated w1)
              × IsFilledBy m p w1)
    unfolding coinex_order_handler deliver call_handlers bybit_order_handler deliver_by_symbol
        datas_of_symbol call_for_symbol
    order_handler-IsFilledBy t now symbol c b x y s u g i =
        let f = fill-IsFilledBy s u g i in
        (
          (handle_order_data (m ∷ []) w, rw x refl, f),
          (handle_order_data (m ∷ []) w, rw (y, eq_refl symbol) refl, f),
        )
