-- ===== src/Gateways/RateLimiter.antt =====
-- internal/gateways/exchanges/bybit/agent/rate_limiter.go, and the same code for CoinEx: quotas by
-- group of endpoints. `l.quotas[group]` of a missing group is 0. The number of units is that of
-- orders in a call, a natural number. Each method body runs under the lock, and the goroutine that
-- gives the units back after a second is an entry of `sleeping` until it runs.
pub mod Totals
pub mod Window
use lapuacore.Common.{
  ℕ, suc, ◌+◌, ◌-◌, Bool, true, false, Option, none, some, List, [], ◌∷◌, Eq, ◌==◌, ltb, leb,
  if◌then◌else◌, get_elem?,
}
use lapuacore.Mutex.Map.{Map, get, set}
use lapuacore.Mutex.Slice.{remove_at}

-- A grant of units at a time, in milliseconds.
pub record Grant (G : Type 0) : Type 0 where
  pub group : G
  pub units : ℕ
  pub at : ℕ

pub record RateLimiter (G : Type 0) : Type 0 where
  pub quotas : Map G ℕ
  pub capacity : Map G ℕ
  pub sleeping : List (Grant G)

abbrev pub one_second : ℕ
one_second = 1000

-- The groups of Bybit and of CoinEx, each counted from 0 by `iota`, with their limits.
abbrev pub group_create_order : ℕ
group_create_order = 0

abbrev pub group_cancel_order : ℕ
group_cancel_order = 1

abbrev pub group_amend_order : ℕ
group_amend_order = 2

abbrev pub bybit_limits : Map ℕ ℕ
bybit_limits = (group_create_order, 20) ∷ (group_cancel_order, 20) ∷ (group_amend_order, 10) ∷ []

abbrev pub group_order : ℕ
group_order = 0

abbrev pub group_cancel : ℕ
group_cancel = 1

abbrev pub coinex_limits : Map ℕ ℕ
coinex_limits = (group_order, 20) ∷ (group_cancel, 40) ∷ []

-- The quotas and the capacity are two maps with the same entries.
unfoldable pub new_rate_limiter : {G : Type 0} → Map G ℕ → RateLimiter G
new_rate_limiter limits = record { quotas = limits; capacity = limits; sleeping = [] }

abbrev pub or_zero : Option ℕ → ℕ
or_zero none = 0
or_zero (some n) = n

module _ {G : Type 0} ⦃e : Eq G⦄ where
  abbrev pub quota : G → RateLimiter G → ℕ
  quota g l = or_zero (get g l.quotas)

  abbrev pub limit_of : G → RateLimiter G → ℕ
  limit_of g l = or_zero (get g l.capacity)

  -- `consume` at a time: `false` is the error.
  unfoldable pub consume : G → ℕ → ℕ → RateLimiter G → RateLimiter G × Bool
  consume g n now l = if ltb (quota g l) n then (l, false) else (
    record l {
      quotas = set g (quota g l - n) l.quotas;
      sleeping = record { group = g; units = n; at = now } ∷ l.sleeping;
    },
    true,
  )

  unfoldable pub give_back : Grant G → RateLimiter G → RateLimiter G
  give_back t l =
      let raised = quota t.group l + t.units in
      record l {
        quotas =
            set t.group (if ltb (limit_of t.group l) raised then limit_of t.group l else raised)
              l.quotas;
      }

  unfoldable pub wake_at : Option (Grant G) → ℕ → ℕ → RateLimiter G → RateLimiter G
  unfolding give_back
  wake_at none i now l = l
  wake_at (some t) i now l =
      if leb (t.at + one_second) now
      then give_back t (record l { sleeping = remove_at i l.sleeping })
      else l

  -- The goroutine at `i` wakes up, which it does not before its second is over.
  unfoldable pub wake : ℕ → ℕ → RateLimiter G → RateLimiter G
  unfolding wake_at
  wake i now l = wake_at (get_elem? l.sleeping i) i now l
