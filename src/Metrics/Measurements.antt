-- ===== src/Metrics/Measurements.antt =====
-- metrics/measurements/ and metrics/translators/: latencies and custom metrics, and the points made of
-- them. The points of the database client are an argument, with the calls that build one. A duration is a
-- word, as in Gateways/Latency; a map of tags or fields is run through in the order of its list.
use lapuacore.Common.{
  ℕ, Bool, Option, none, some, List, [], ◌∷◌, ◌++◌, map, String, ◌==◌, string_eq, length, ltb,
  if◌then◌else◌,
}
use lapuacore.Mutex.Map.{Map}
use lapuacore.Gateways.Latency.{
  div64, AggLatency, AggLatencyMapWithTime, avg_latency, max_latency, min_latency,
}

-- `influxdb3.Point`; fields are numbers of two types.
pub record PointApi (P F : Type 0) : Type 0 where
  pub new_point : String → P
  pub set_timestamp : ℕ → P → P
  pub set_tag : String → String → P → P
  pub set_float_field : String → F → P → P
  pub set_int_field : String → ℕ → P → P

pub record CustomMetric (F : Type 0) : Type 0 where
  pub measurement : String
  pub timestamp : ℕ
  pub tags : Map String String
  pub fields : Map String F

pub record Latency : Type 0 where
  pub time : ℕ
  pub topic : String
  pub avg_milli_sec : Option ℕ
  pub max_milli_sec : Option ℕ
  pub min_milli_sec : Option ℕ

module _ {P F : Type 0} (api : PointApi P F) where
  unfoldable pub set_tags : Map String String → P → P
  set_tags [] p = p
  set_tags ((k, v) ∷ tags) p = set_tags tags (api.set_tag k v p)

  unfoldable pub set_fields : Map String F → P → P
  set_fields [] p = p
  set_fields ((k, v) ∷ fields) p = set_fields fields (api.set_float_field k v p)

  unfoldable pub set_strategy : String → P → P
  set_strategy strategy p = if strategy == "" then p else api.set_tag "strategy" strategy p

  unfoldable pub validate : CustomMetric F → Bool
  validate m = ltb 0 (length m.fields)

  -- None where the metric has no field.
  unfoldable pub to_point : String → CustomMetric F → Option P
  unfolding set_tags set_fields set_strategy validate
  to_point strategy m =
      if validate m
      then some (
          set_fields m.fields (
            set_tags m.tags (
              set_strategy strategy (api.set_timestamp m.timestamp (api.new_point m.measurement)))))
      else none

  unfoldable pub set_pointer_value : String → Option ℕ → P → P
  set_pointer_value name none p = p
  set_pointer_value name (some v) p = api.set_int_field name v p

  unfoldable pub latency_point : String → Latency → P
  unfolding set_strategy set_pointer_value
  latency_point strategy l = set_pointer_value "min_ms" l.min_milli_sec (
      set_pointer_value "max_ms" l.max_milli_sec (
        set_pointer_value "avg_ms" l.avg_milli_sec (
          set_strategy strategy
            (api.set_timestamp l.time (api.set_tag "topic" l.topic (api.new_point "ws_latency"))))))

  unfoldable pub to_points : String → List Latency → List P
  unfolding latency_point
  to_points strategy ls = map (latency_point strategy) ls

-- `Duration.Milliseconds`.
abbrev pub milliseconds : Option ℕ → Option ℕ
milliseconds none = none
milliseconds (some d) = some (div64 d 1000000)

unfoldable pub translate_to_latency : ℕ → String → AggLatency → Latency
translate_to_latency time topic agg = record {
  time = time;
  topic = topic;
  avg_milli_sec = milliseconds (avg_latency agg);
  max_milli_sec = milliseconds (max_latency agg);
  min_milli_sec = milliseconds (min_latency agg);
}

unfoldable pub translate_map : ℕ → Map String AggLatency → List Latency
unfolding translate_to_latency
translate_map time m = map (λ e. translate_to_latency time e.0 e.1) m

unfoldable pub translate_to_latencies : List AggLatencyMapWithTime → List Latency
unfolding translate_map
translate_to_latencies [] = []
translate_to_latencies (h ∷ l) = translate_map h.time h.latencies ++ translate_to_latencies l
