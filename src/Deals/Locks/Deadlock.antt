-- ===== src/Deals/Locks/Deadlock.antt =====
-- How calls of `WithOpeLocks` of domains/deals/order.go wait for one another.
use lapuacore.Common.{ℕ, ◌≡◌, ap, ◌∙◌, subst, ◌≢◌, inl, inr, none, some, List, [], ◌∷◌, ◌++◌, arith}
use lapuacore.Deals.Locks.{
  locking, running, unlocking, Locks, take_lock, run_locked, return_locked, release_lock, LockStep,
  locks, runs, returns, unlocks, LockRun, no_lock_step, next_lock_step,
}
use lapuacore.Deals.Locks.Exclusion.{Owns, IsOwned, set_at-cases, LockRun-IsOwned}

-- A call whose next order another call owns waits.
waits :
    {s t : Locks} (i b j : ℕ) (rest held : List ℕ)
    → LockStep s t
    → s.calls i ≡ locking (b ∷ rest) held
    → s.owner b ≡ some j
    → t.calls i ≡ locking (b ∷ rest) held
unfolding take_lock run_locked return_locked release_lock
waits {s = s} i b j rest held (locks k o todo done e free) at_b owned =
    elim (set_at-cases s.calls k (locking todo (done ++ o ∷ [])) i) [
      | inl (same, new) ↦ cc (ap s.calls same)
      | inr (n, old) ↦ old ∙ at_b
    ]
waits {s = s} i b j rest held (runs k done e) at_b owned =
    elim (set_at-cases s.calls k (running done) i) [
      | inl (same, new) ↦ cc (ap s.calls same)
      | inr (n, old) ↦ old ∙ at_b
    ]
waits {s = s} i b j rest held (returns k done e) at_b owned =
    elim (set_at-cases s.calls k (unlocking done) i) [
      | inl (same, new) ↦ cc (ap s.calls same)
      | inr (n, old) ↦ old ∙ at_b
    ]
waits {s = s} i b j rest held (unlocks k o todo e) at_b owned =
    elim (set_at-cases s.calls k (unlocking todo) i) [
      | inl (same, new) ↦ cc (ap s.calls same)
      | inr (n, old) ↦ old ∙ at_b
    ]

-- Each of two calls waits for what the other one has locked.
pub record IsStuck (i j a b : ℕ) (s : Locks) : Type 0 where
  pub waits_for_b : s.calls i ≡ locking (b ∷ []) (a ∷ [])
  pub waits_for_a : s.calls j ≡ locking (a ∷ []) (b ∷ [])

owner_of_held :
    (s : Locks) (i a : ℕ) (todo : List ℕ)
    → IsOwned s
    → s.calls i ≡ locking todo (a ∷ [])
    → s.owner a ≡ some i
owner_of_held s i a todo v e =
    let own : Owns s.owner i (locking todo (a ∷ [])) = subst (Owns s.owner i) e (v i) in own.0.0

module _ (i j a b : ℕ) where
  step-IsStuck : {s t : Locks} → LockStep s t → IsOwned s → IsStuck i j a b s → IsStuck i j a b t
  step-IsStuck {s = s} st v stuck = record {
    waits_for_b =
        waits i b j [] (a ∷ []) st stuck.waits_for_b
          (owner_of_held s j b (a ∷ []) v stuck.waits_for_a);
    waits_for_a =
        waits j a i [] (b ∷ []) st stuck.waits_for_a
          (owner_of_held s i a (b ∷ []) v stuck.waits_for_b);
  }

  run-IsStuck : {s t : Locks} → LockRun s t → IsOwned s → IsStuck i j a b s → IsStuck i j a b t
  run-IsStuck no_lock_step v stuck = stuck
  run-IsStuck (next_lock_step r st) v stuck =
      step-IsStuck st (LockRun-IsOwned r v) (run-IsStuck r v stuck)

-- Two calls of `WithOpeLocks` over the same two orders, which `Unique` gives them in opposite orders,
-- while neither order is locked: there is a run after which, whatever steps follow, of these
-- and of any other calls, both wait for ever for the order that the other one has locked.
pub opposite_orders-deadlock :
    (s : Locks) (i j a b : ℕ)
    → i ≢ j
    → a ≢ b
    → IsOwned s
    → s.owner a ≡ none
    → s.owner b ≡ none
    → s.calls i ≡ locking (a ∷ b ∷ []) []
    → s.calls j ≡ locking (b ∷ a ∷ []) []
    → (t : Locks) × LockRun s t × ((u : Locks) → LockRun t u → IsStuck i j a b u)
unfolding take_lock
opposite_orders-deadlock s i j a b other distinct v free_a free_b first second =
    let s1 = take_lock i a (b ∷ []) [] s in
    let t = take_lock j b (a ∷ []) [] s1 in
    let one : LockStep s s1 = locks i a (b ∷ []) [] first free_a in
    let still : s1.calls j ≡ locking (b ∷ a ∷ []) [] = ground arith in
    let two : LockStep s1 t = locks j b (a ∷ []) [] still (ground arith) in
    let run = next_lock_step (next_lock_step no_lock_step one) two in
    (
      t,
      run,
      λ u r.
          run-IsStuck i j a b r (LockRun-IsOwned run v)
            (record { waits_for_b = ground arith; waits_for_a = ground arith }),
    )
