-- ===== src/Metrics/Exporter.antt =====
-- metrics/exporter.go: the queue of custom metrics, the measurers, and the goroutines that a tick starts.
-- A goroutine takes its batch in one step, under the lock, and writes it in a later one; the answer of the
-- client's `WritePoints` comes with that step.
use lapuacore.Common.{
  ℕ, suc, ◌+◌, ◌≡◌, ◌-◌, Bool, true, false, none, some, List, [], ◌∷◌, ◌++◌, String, ◌==◌,
  string_eq, ◌||◌, if◌then◌else◌,
}
use lapuacore.Gateways.Latency.{LatencyMeasurer, export_history}
use lapuacore.Metrics.Measurements.{
  PointApi, CustomMetric, Latency, to_point, to_points, translate_to_latencies,
}

pub record Exporter (F : Type 0) : Type 0 where
  pub noop_mode : Bool
  pub strategy_name : String
  pub latency_measurer : List LatencyMeasurer
  pub custom_metric_queue : List (CustomMetric F)

-- `custom_tasks` and `latency_tasks` are the goroutines that have not taken their batch yet, `taken` and
-- `collected` the batches of those that have. `dropped` are the metrics that were given up, without
-- a write or with one that failed.
pub record Exporting (P F : Type 0) : Type 0 where
  pub exporter : Exporter F
  pub custom_tasks : ℕ
  pub latency_tasks : ℕ
  pub taken : List (List (CustomMetric F))
  pub collected : List (List Latency)
  pub dropped : List (CustomMetric F)
  pub written_metrics : List P
  pub written_latencies : List P

-- Every measurer exports, and what they export.
unfoldable pub export_all : List LatencyMeasurer → List LatencyMeasurer × List Latency
export_all [] = ([], [])
export_all (m ∷ ms) =
    let (m', history) = export_history m in
    let (ms', latencies) = export_all ms in (m' ∷ ms', translate_to_latencies history ++ latencies)

module _ {F : Type 0} where
  -- `NewExporter`, where the client can be made.
  unfoldable pub new_exporter : String → String → String → Exporter F
  new_exporter strategy url token =
      if url == "" || token == ""
      then record {
        noop_mode = true;
        strategy_name = "";
        latency_measurer = [];
        custom_metric_queue = [];
      }
      else record {
        noop_mode = false;
        strategy_name = strategy;
        latency_measurer = [];
        custom_metric_queue = [];
      }

  unfoldable pub set_latency_measurer : LatencyMeasurer → Exporter F → Exporter F
  set_latency_measurer m c = record c { latency_measurer = c.latency_measurer ++ m ∷ [] }

  unfoldable pub write_custom_metrics : List (CustomMetric F) → Exporter F → Exporter F
  write_custom_metrics ms c = record c { custom_metric_queue = c.custom_metric_queue ++ ms }

  unfoldable pub collect_latencies : Exporter F → Exporter F × List Latency
  unfolding export_all
  collect_latencies c =
      let (ms, latencies) = export_all c.latency_measurer in
      (record c { latency_measurer = ms }, latencies)

  unfoldable pub discard_ws_latencies : Exporter F → Exporter F
  unfolding collect_latencies
  discard_ws_latencies c = (collect_latencies c).0

module _ {P F : Type 0} where
  unfoldable pub discard_custom_metrics : Exporting P F → Exporting P F
  discard_custom_metrics s = record s {
    exporter = record s.exporter { custom_metric_queue = [] };
    dropped = s.dropped ++ s.exporter.custom_metric_queue;
  }

  -- The case of a tick.
  unfoldable pub export_tick : Exporting P F → Exporting P F
  unfolding discard_ws_latencies discard_custom_metrics
  export_tick s =
      if s.exporter.noop_mode
      then discard_custom_metrics (record s { exporter = discard_ws_latencies s.exporter })
      else record s { custom_tasks = s.custom_tasks + 1; latency_tasks = s.latency_tasks + 1 }

  -- The part of `collectAndExportCustomMetrics` under the lock.
  unfoldable pub take_custom_metrics : Exporting P F → Exporting P F
  take_custom_metrics s = record s {
    exporter = record s.exporter { custom_metric_queue = [] };
    custom_tasks = s.custom_tasks - 1;
    taken = s.taken ++ s.exporter.custom_metric_queue ∷ [];
  }

  unfoldable pub take_latencies : Exporting P F → Exporting P F
  unfolding collect_latencies
  take_latencies s =
      let (c, latencies) = collect_latencies s.exporter in
      record s {
        exporter = c;
        latency_tasks = s.latency_tasks - 1;
        collected = s.collected ++ latencies ∷ [];
      }

module _ {P F : Type 0} (api : PointApi P F) where
  -- The points of the metrics that have one.
  unfoldable pub points_of : String → List (CustomMetric F) → List P
  points_of strategy [] = []
  points_of strategy (m ∷ ms) = elim (to_point api strategy m) [
    | none ↦ points_of strategy ms
    | some p ↦ p ∷ points_of strategy ms
  ]

  -- `exportCustomMetrics` and `exportLatencies`, for an answer of the client.
  unfoldable pub export_custom_metrics :
      Bool → List (CustomMetric F) → Exporting P F → Exporting P F
  unfolding points_of
  export_custom_metrics true ms s = record s {
    written_metrics = s.written_metrics ++ points_of s.exporter.strategy_name ms;
  }
  export_custom_metrics false ms s = record s { dropped = s.dropped ++ ms }

  unfoldable pub export_latencies : Bool → List Latency → Exporting P F → Exporting P F
  export_latencies true ls s = record s {
    written_latencies = s.written_latencies ++ to_points api s.exporter.strategy_name ls;
  }
  export_latencies false ls s = s

-- What may happen next: a call, a tick, or a goroutine going on. A batch stands
-- between others. The list is what the step hands over to the exporter.
pub data ExportStep {P F : Type 0} (api : PointApi P F)
    : Exporting P F → List (CustomMetric F) → Exporting P F → Type 0 where
  enqueues :
      (ms : List (CustomMetric F)) (s : Exporting P F)
      → ExportStep api s ms (record s { exporter = write_custom_metrics ms s.exporter })
  measures :
      (ms : List LatencyMeasurer) (s : Exporting P F)
      → ExportStep api s [] (record s { exporter = record s.exporter { latency_measurer = ms } })
  ticks : (s : Exporting P F) → ExportStep api s [] (export_tick s)
  takes_metrics :
      (n : ℕ) (s : Exporting P F)
      → s.custom_tasks ≡ suc n
      → ExportStep api s [] (take_custom_metrics s)
  takes_latencies :
      (n : ℕ) (s : Exporting P F) → s.latency_tasks ≡ suc n → ExportStep api s [] (take_latencies s)
  exports_metrics :
      (ok : Bool) (before after : List (List (CustomMetric F))) (ms : List (CustomMetric F))
      (s : Exporting P F)
      → s.taken ≡ before ++ ms ∷ after
      → ExportStep api s [] (export_custom_metrics api ok ms (record s { taken = before ++ after }))
  exports_latencies :
      (ok : Bool) (before after : List (List Latency)) (ls : List Latency) (s : Exporting P F)
      → s.collected ≡ before ++ ls ∷ after
      → ExportStep api s [] (export_latencies api ok ls (record s { collected = before ++ after }))
