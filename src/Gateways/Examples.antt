-- ===== src/Gateways/Examples.antt =====
-- What the theorems of `Gateways` say at concrete values.
use lapuacore.Common.{
  ℕ, zero, suc, ap, ◌<◌, ◌++◌, length, is_some, ◌+◌, ◌≤◌, ◌≡◌, ◌≢◌, refl, true, false, List, [],
  ◌∷◌, String, arith, string_eq, nat_eq, if◌then◌else◌,
}
use lapuacore.Mutex.Map.{get, get_keys, len}
use lapuacore.Deals.Handlers.{notice_error}
use lapuacore.Deals.Samples.{idle}
use lapuacore.Gateways.Bybit
use lapuacore.Gateways.Coinex
use lapuacore.Gateways.Translations.{is_tolerated, notice_error-accept_order}
use lapuacore.Gateways.RateLimiter.{quota, bybit_limits, group_create_order, group_cancel_order}
use lapuacore.Gateways.RateLimiter.Totals.{total}
use lapuacore.Gateways.RateLimiter.Window.{
  Run, Event, consumes, wakes, passes, run, start, recent, spent, run-limits,
}
use lapuacore.Gateways.TtlCache.{
  Cache, cleanup_threshold, Shared, Event as Message, looks, stores, scans, reads, deletes,
}
use lapuacore.Gateways.TtlCache.Window.{passed, passed-once}
use lapuacore.Gateways.TtlCache.Races.{at_rest, copies, passed-renewals, passed-swept}
use lapuacore.Gateways.Messages.Strokes.{strokes}

notice_error-accept_order_example :
    ((notice_error
        (Coinex.translate_error (λ code msg. msg) 3132 "closing")
        idle).dealer.accept_order
      ≡ (if is_tolerated 3132 then idle.dealer.accept_order else false))
    × ((notice_error
          (Bybit.translate_error (λ code msg. msg) 3132 "closing")
          idle).dealer.accept_order
        ≡ false)
notice_error-accept_order_example = notice_error-accept_order (λ code msg. msg) 3132 "closing" idle

-- Calls for creations and cancels at Bybit within one second and a bit.
abbrev calls : List (Event ℕ)
calls =
    consumes group_create_order 15
    ∷ passes 500
    ∷ consumes group_create_order 6
    ∷ consumes group_cancel_order 20
    ∷ passes 600
    ∷ wakes 1
    ∷ consumes group_create_order 6
    ∷ []

abbrev after_calls : Run ℕ
after_calls = run calls (start bybit_limits 0)

run-limits_example :
    (total (recent group_create_order after_calls.now) after_calls.granted ≤ 20)
    × (quota group_create_order after_calls.limiter
          + total (spent group_create_order) after_calls.limiter.sleeping
        ≡ 20)
unfolding get
run-limits_example = run-limits bybit_limits 0 calls group_create_order

abbrev m1 : String
m1 = "m1"

not_empty : m1 ≢ ""
not_empty e = let t : false ≡ true = (string_eq.beq_iff "m1" "").1 e in cc

-- Two channels with the same message, the other one's behind its first section, and a cleanup.
abbrev sections : List Message
sections =
    looks 5 "m1"
    ∷ looks 6 "m2"
    ∷ looks 6 "m1"
    ∷ scans 7
    ∷ stores 0
    ∷ reads 0
    ∷ deletes 0
    ∷ looks 900 "m1"
    ∷ []

abbrev waiting_m2 : Shared
waiting_m2 = record (at_rest (("m2", 3) ∷ [])) { renewals = ("m2", 2) ∷ [] }

m2_not_m1 : ◌≢◌ {A = String} "m2" "m1"
m2_not_m1 e = let t : false ≡ true = (string_eq.beq_iff "m2" "m1").1 e in cc

passed-once_example :
    passed 1000 "m1" sections waiting_m2 ≤ (if is_some (get "m1" waiting_m2.cache) then 0 else 1)
unfolding get
passed-once_example =
    passed-once 1000 "m1" 5 900 sections waiting_m2 not_empty (omega arith)
      (
        (omega arith, omega arith),
        (
          (omega arith, omega arith),
          (
            (omega arith, omega arith),
            (omega arith, (tt, (tt, (tt, ((omega arith, omega arith), tt))))),
          ),
        ),
      )
      (record { fresh = λ t e. cc; no_renewal = (m2_not_m1, tt); not_found = tt })

passed-renewals_example :
    passed 1000 "m1" (copies 3 (looks 5000 "m1") ++ copies 3 (stores 0)) (at_rest (("m1", 3) ∷ []))
    ≡ 3
unfolding get
passed-renewals_example =
    passed-renewals 1000 5000 3 "m1" not_empty (("m1", 3) ∷ []) refl (omega arith) 3

-- A cache with `n` keys of one letter each.
abbrev filler : ℕ → Cache
filler zero = []
filler (suc n) = (strokes (suc n), 3) ∷ filler n

length-filler : (n : ℕ) → length (filler n) ≡ n
length-filler zero = refl
length-filler (suc n) = ap suc (length-filler n)

abbrev full_cache : Cache
full_cache = ("m1", 3) ∷ filler 1000

full_cache-IsFull : cleanup_threshold < len full_cache
unfolding len
full_cache-IsFull = omega (arith, length-filler 1000)

passed-swept_example :
    passed 1000 "m1"
      (scans 5000 ∷ copies (length (get_keys full_cache)) (reads 0)
        ++ looks 5000 "m1" ∷ stores 0 ∷ deletes 0 ∷ looks 5000 "m1" ∷ [])
      (at_rest full_cache)
    ≡ 2
unfolding get
passed-swept_example =
    passed-swept 1000 5000 3 "m1" not_empty full_cache refl (omega arith) full_cache-IsFull
