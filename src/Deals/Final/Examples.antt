-- ===== src/Deals/Final/Examples.antt =====
-- What the theorem on done orders says of an order that the agent refuses.
use lapuacore.Common.{ℕ, ◌<◌, ◌≡◌, refl, arith}
use lapuacore.Deals.Order.{done, set_status, set_order_done_reason}
use lapuacore.Mutex.Map.{get, new_map}
use lapuacore.Deals.Order.New.{new_order}
use lapuacore.Deals.World.{World, update, modify, spawn, call_agent}
use lapuacore.Deals.Outcome.{reject_create, retire}
use lapuacore.Deals.Dealer.{send_order, cancel_order, new_dealer}
use lapuacore.Deals.Invariant.Books.{IsConsistent}
use lapuacore.Deals.Invariant.Steps.{
  create, Reach, here, next_step, creates, sends, cancels, clock, set_now, Reach-IsConsistent,
  new_dealer-IsConsistent,
}
use lapuacore.Deals.Final.Steps.{Reach-done_final}
use lapuacore.Deals.Samples.{whole, refusing, buy, idle}

idle-IsConsistent : IsConsistent idle
unfolding new_order
idle-IsConsistent = new_dealer-IsConsistent 0 idle "BTCUSDT" (λ p. refl)

abbrev refused : World ℕ
refused = (send_order refusing 0 (create buy idle)).0

refused-Reach : Reach refusing idle refused
unfolding create update new_order
refused-Reach = next_step (next_step here (creates buy refl)) (sends 0 refl (omega arith))

abbrev later : World ℕ
later = cancel_order refusing 0 (set_now 50 refused)

later-Reach : Reach refusing refused later
later-Reach = next_step (next_step here (clock 50)) (cancels 0)

refused-done : (refused.heap 0).status ≡ done
unfolding send_order create update new_order new_dealer modify call_agent retire spawn reject_create
    get new_map set_order_done_reason set_status
refused-done = refl

refused-allocated : 0 < refused.next
unfolding create send_order new_dealer get new_map call_agent reject_create spawn retire modify
refused-allocated = omega arith

Reach-done_final_example : later.heap 0 ≡ refused.heap 0
Reach-done_final_example =
    Reach-done_final refusing 0 (Reach-IsConsistent refusing idle-IsConsistent refused-Reach)
      later-Reach refused-allocated refused-done
