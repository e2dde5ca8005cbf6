-- ===== src/Deals/Examples.antt =====
-- What the theorems of `Deals` say at concrete orders.
use lapuacore.Common.{ℕ, ◌≡◌, refl, ◌↔◌, some, [], ◌∷◌, arith, string_eq}
use lapuacore.Mutex.Map.{get, new_map}
use lapuacore.Domains.Commons.{is_taker}
use lapuacore.Deals.Order.{amend_later, sending}
use lapuacore.Deals.Order.New.{new_order}
use lapuacore.Deals.World.{World, update}
use lapuacore.Deals.Dealer.{send_order, new_dealer}
use lapuacore.Deals.Invariant.Books.{IsConsistent, Distinct, NotIn}
use lapuacore.Deals.Invariant.Outcomes.{IsUnderWay}
use lapuacore.Deals.Invariant.Steps.{
  create, Reach, here, next_step, creates, sends, Reach-ledger, new_dealer-IsConsistent,
}
use lapuacore.Deals.Deferred.{IsWaiting, amend_each, deferred_detail, amend_each-sending}
use lapuacore.Deals.Samples.{whole, agreeing, buy, detail_of, idle, holding, in_status}

idle-IsConsistent : IsConsistent idle
unfolding new_order
idle-IsConsistent = new_dealer-IsConsistent 0 idle "BTCUSDT" (λ p. refl)

abbrev created : World ℕ
created = create buy idle

abbrev sent : World ℕ
sent = (send_order agreeing 0 created).0

sent-Reach : Reach agreeing idle sent
unfolding create update new_order
sent-Reach = next_step (next_step here (creates buy refl)) (sends 0 refl (omega arith))

Reach-ledger_example :
    ((p : ℕ) → IsUnderWay sent p ↔ (get (sent.heap p).id sent.dealer.living_orders ≡ some p))
    × ((p : ℕ) → IsUnderWay sent p → NotIn p sent.dealer.done_orders.a)
    × Distinct sent.dealer.done_orders.a
Reach-ledger_example = Reach-ledger agreeing idle-IsConsistent sent-Reach

sending-IsWaiting : IsWaiting agreeing 0 (holding (in_status sending))
unfolding new_dealer is_taker new_order
sending-IsWaiting = record { accepting = refl; is_sent = refl; maker = refl }

amend_each-sending_example :
    let u =
      amend_each agreeing 0 (detail_of 101 ∷ detail_of 102 ∷ []) (holding (in_status sending)) in
    ((u.heap 0).status ≡ sending)
    × (deferred_detail agreeing 0 u ≡ some (detail_of 102))
    × ((u.heap 0).create_callbacks ≡ amend_later 0 (detail_of 101) ∷ [])
unfolding get new_dealer new_map new_order
amend_each-sending_example =
    amend_each-sending agreeing 0 (detail_of 101) (detail_of 102 ∷ []) (holding (in_status sending))
      sending-IsWaiting refl
