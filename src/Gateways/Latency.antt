-- ===== src/Gateways/Latency.antt =====
-- internal/gateways/latency_measurer.go: latencies by topic, their sums and extremes, until they are
-- exported. A `time.Duration` is a signed 64-bit integer, by its bits: a number below `2 ^ 64`. Each method
-- runs under the lock, as one step; the counter of calls is a natural number.
pub mod Extremes
pub mod Kept
pub mod Examples
use lapuacore.Common.{
  ℕ, ◌+◌, ◌-◌, ◌/◌, ◌%◌, Bool, true, false, ◌||◌, Option, none, some, List, [], ◌∷◌, ◌++◌, String,
  string_eq, ltb, leb, nat_beq, if◌then◌else◌,
}
use lapuacore.Mutex.Map.{Map, get, set}

abbrev pub word : ℕ
word = 18446744073709551616

abbrev pub half_word : ℕ
half_word = 9223372036854775808

-- Addition wraps around; the order is the one of the signed numbers.
unfoldable pub add64 : ℕ → ℕ → ℕ
add64 a b = (a + b) % word

unfoldable pub rank64 : ℕ → ℕ
rank64 a = (a + half_word) % word

abbrev pub less64 : ℕ → ℕ → Bool
less64 a b = ltb (rank64 a) (rank64 b)

-- Division by a positive number, towards zero.
unfoldable pub div64 : ℕ → ℕ → ℕ
div64 a n = if ltb a half_word then a / n else (word - (word - a) / n) % word

pub record AggLatency : Type 0 where
  pub counter : ℕ
  pub sum_val : ℕ
  pub max_val : ℕ
  pub min_val : ℕ

abbrev pub new_agg_latency : AggLatency
new_agg_latency = record { counter = 0; sum_val = 0; max_val = 0; min_val = 0 }

unfoldable pub add_latency : ℕ → AggLatency → AggLatency
unfolding add64
add_latency latency l = record {
  counter = l.counter + 1;
  sum_val = add64 l.sum_val latency;
  max_val = if less64 l.max_val latency || nat_beq l.counter 0 then latency else l.max_val;
  min_val = if less64 latency l.min_val || nat_beq l.counter 0 then latency else l.min_val;
}

unfoldable pub avg_latency : AggLatency → Option ℕ
unfolding div64
avg_latency l = if nat_beq l.counter 0 then none else some (div64 l.sum_val l.counter)

unfoldable pub max_latency : AggLatency → Option ℕ
max_latency l = if nat_beq l.counter 0 then none else some l.max_val

unfoldable pub min_latency : AggLatency → Option ℕ
min_latency l = if nat_beq l.counter 0 then none else some l.min_val

pub record AggLatencyMapWithTime : Type 0 where
  pub time : ℕ
  pub latencies : Map String AggLatency

pub record LatencyMeasurer : Type 0 where
  pub current : Map String AggLatency
  pub history : List AggLatencyMapWithTime

unfoldable pub new_latency_measurer : LatencyMeasurer
new_latency_measurer = record { current = []; history = [] }

unfoldable pub aggregate : ℕ → LatencyMeasurer → LatencyMeasurer
aggregate now m = record {
  current = [];
  history = m.history ++ record { time = now; latencies = m.current } ∷ [];
}

unfoldable pub export_history : LatencyMeasurer → LatencyMeasurer × List AggLatencyMapWithTime
export_history m = (record m { history = [] }, m.history)

abbrev pub or_new : Option AggLatency → AggLatency
or_new none = new_agg_latency
or_new (some l) = l

unfoldable pub record_latency : String → ℕ → LatencyMeasurer → LatencyMeasurer
unfolding add_latency
record_latency topic latency m = record m {
  current = set topic (add_latency latency (or_new (get topic m.current))) m.current;
}
