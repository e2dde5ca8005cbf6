-- ===== src/Gateways/Latency/Examples.antt =====
-- What the theorems on latencies say at concrete values, one of them negative.
use lapuacore.Common.{ℕ, ◌-◌, ◌≡◌, true, List, [], ◌∷◌, All, length}
use lapuacore.Gateways.Latency.{new_agg_latency, new_latency_measurer, word}
use lapuacore.Gateways.Latency.Extremes.{add_all, sum64, IsBetween, has, add_all-bounds}
use lapuacore.Gateways.Latency.Kept.{
  Call, records, aggregates, exports, kept, recorded, call_all, call_all-recorded,
}

abbrev durations : List ℕ
durations = (word - 2) ∷ 7 ∷ []

add_all-bounds_example :
    let a = add_all (5 ∷ durations) new_agg_latency in
    All (IsBetween a) (5 ∷ durations)
    × (has a.max_val (5 ∷ durations) ≡ true)
    × (has a.min_val (5 ∷ durations) ≡ true)
    × (a.counter ≡ length (5 ∷ durations))
    × (a.sum_val ≡ sum64 (5 ∷ durations) 0)
add_all-bounds_example = add_all-bounds 5 durations

abbrev calls : List Call
calls = records "trade" 5 ∷ aggregates 10 ∷ records "trade" 7 ∷ exports ∷ records "order" 3 ∷ []

call_all-recorded_example :
    kept "trade" (call_all calls (new_latency_measurer, [])) ≡ recorded "trade" calls
call_all-recorded_example = call_all-recorded "trade" calls
