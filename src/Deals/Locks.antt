-- ===== src/Deals/Locks.antt =====
-- domains/deals/order.go, `WithOpLock` and `WithOpeLocks`, for calls that run at once: which of them holds the
-- operation lock of which order. A call is a number, an order a pointer. `Unique` gives each call its
-- orders, each once, in the order in which Go happens to iterate a map. Any call may take the next
-- step; a lock that is taken makes a call wait.
pub mod Exclusion
pub mod Deadlock
pub mod Examples
use lapuacore.Common.{ℕ, ◌≡◌, Option, none, some, List, [], ◌∷◌, ◌++◌, nat_beq, if◌then◌else◌}

abbrev pub set_at {ℓ} : {A : Type ℓ} → (ℕ → A) → ℕ → A → ℕ → A
set_at f i a j = if nat_beq i j then a else f j

-- The first loop with the orders that are left and those that are locked, the call of `f`, from its
-- beginning to its return, and the second loop. `WithOpLock` is the case of one order.
pub data LockCall : Type 0 where
  locking : List ℕ → List ℕ → LockCall
  running : List ℕ → LockCall
  unlocking : List ℕ → LockCall

pub record Locks : Type 0 where
  pub owner : ℕ → Option ℕ
  pub calls : ℕ → LockCall

unfoldable pub take_lock : ℕ → ℕ → List ℕ → List ℕ → Locks → Locks
take_lock i o rest held s = record {
  owner = set_at s.owner o (some i);
  calls = set_at s.calls i (locking rest (held ++ o ∷ []));
}

unfoldable pub run_locked : ℕ → List ℕ → Locks → Locks
run_locked i held s = record s { calls = set_at s.calls i (running held) }

unfoldable pub return_locked : ℕ → List ℕ → Locks → Locks
return_locked i held s = record s { calls = set_at s.calls i (unlocking held) }

unfoldable pub release_lock : ℕ → ℕ → List ℕ → Locks → Locks
release_lock i o rest s = record {
  owner = set_at s.owner o none;
  calls = set_at s.calls i (unlocking rest);
}

pub data LockStep (s : Locks) : Locks → Type 0 where
  locks :
      (i o : ℕ) (rest held : List ℕ)
      → s.calls i ≡ locking (o ∷ rest) held
      → s.owner o ≡ none
      → LockStep s (take_lock i o rest held s)
  runs : (i : ℕ) (held : List ℕ) → s.calls i ≡ locking [] held → LockStep s (run_locked i held s)
  returns : (i : ℕ) (held : List ℕ) → s.calls i ≡ running held → LockStep s (return_locked i held s)
  unlocks :
      (i o : ℕ) (rest : List ℕ)
      → s.calls i ≡ unlocking (o ∷ rest)
      → LockStep s (release_lock i o rest s)

pub data LockRun (s : Locks) : Locks → Type 0 where
  no_lock_step : LockRun s s
  next_lock_step : {t u : Locks} → LockRun s t → LockStep t u → LockRun s u
