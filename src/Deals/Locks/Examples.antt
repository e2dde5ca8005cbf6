-- ===== src/Deals/Locks/Examples.antt =====
-- Calls of `WithOpeLocks` of domains/deals/order.go over the orders 0 to 3.
use lapuacore.Common.{ℕ, zero, suc, refl, sym, ◌≢◌, All, Option, none, List, [], ◌∷◌, arith}
use lapuacore.Deals.Locks.{
  locking, Locks, take_lock, run_locked, locks, runs, LockRun, no_lock_step, next_lock_step,
}
use lapuacore.Deals.Locks.Exclusion.{IsOwned, LockRun-exclusive}
use lapuacore.Deals.Invariant.Books.{NotIn, Distinct}
use lapuacore.Deals.Locks.Deadlock.{IsStuck, opposite_orders-deadlock}

abbrev unlocked : ℕ → Option ℕ
unlocked o = none

abbrev the_calls : ℕ → List ℕ
the_calls zero = 0 ∷ 1 ∷ []
the_calls (suc zero) = 1 ∷ 0 ∷ []
the_calls (suc (suc zero)) = 2 ∷ 3 ∷ []
the_calls (suc (suc (suc k))) = []

abbrev before : Locks
before = record { owner = unlocked; calls = λ i. locking (the_calls i) [] }

-- The call 0 is inside, with both orders.
abbrev inside : Locks
inside = take_lock 0 1 [] (0 ∷ []) (take_lock 0 0 (1 ∷ []) [] before)

-- The call 2 is inside too, with two other orders.
abbrev both_inside : Locks
both_inside =
    run_locked 2 (2 ∷ 3 ∷ [])
      (take_lock 2 3 [] (2 ∷ []) (take_lock 2 2 (3 ∷ []) [] (run_locked 0 (0 ∷ 1 ∷ []) inside)))

zero_one : ◌≢◌ {A = ℕ} 0 1
zero_one = omega arith

the_calls-Distinct : (k : ℕ) → Distinct (the_calls k)
the_calls-Distinct zero = ((zero_one, tt), (tt, tt))
the_calls-Distinct (suc zero) = ((λ e. zero_one (sym e), tt), (tt, tt))
the_calls-Distinct (suc (suc zero)) = ((λ e. zero_one (omega arith), tt), (tt, tt))
the_calls-Distinct (suc (suc (suc k))) = tt

run_inside : LockRun before inside
unfolding take_lock
run_inside =
    next_lock_step (next_lock_step no_lock_step (locks 0 0 (1 ∷ []) [] refl refl))
      (locks 0 1 [] (0 ∷ []) refl refl)

run_both : LockRun before both_inside
unfolding take_lock run_locked
run_both =
    let one_inside = next_lock_step run_inside (runs 0 (0 ∷ 1 ∷ []) refl) in
    let two_taken =
      next_lock_step (next_lock_step one_inside (locks 2 2 (3 ∷ []) [] refl refl))
        (locks 2 3 [] (2 ∷ []) refl refl) in
    next_lock_step two_taken (runs 2 (2 ∷ 3 ∷ []) refl)

LockRun-exclusive_example : All (λ o. NotIn o (the_calls 2)) (the_calls 0)
unfolding take_lock run_locked
LockRun-exclusive_example =
    LockRun-exclusive {s = before} {t = both_inside} the_calls 0 2 (0 ∷ 1 ∷ []) (2 ∷ 3 ∷ [])
      (λ k. refl) the_calls-Distinct run_both refl refl (omega arith)

before-IsOwned : IsOwned before
before-IsOwned i = (tt, the_calls-Distinct i)

opposite_orders-deadlock_example :
    (t : Locks) × LockRun before t × ((u : Locks) → LockRun t u → IsStuck 0 1 0 1 u)
opposite_orders-deadlock_example =
    opposite_orders-deadlock before 0 1 0 1 zero_one zero_one before-IsOwned refl refl refl refl
