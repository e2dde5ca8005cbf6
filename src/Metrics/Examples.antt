-- ===== src/Metrics/Examples.antt =====
-- What the theorem on metrics/exporter.go says at concrete values.
use lapuacore.Common.{ℕ, ◌+◌, ◌≡◌, refl, true, false, [], ◌∷◌}
use lapuacore.Metrics.Measurements.{PointApi, CustomMetric}
use lapuacore.Metrics.Exporter.{
  Exporting, enqueues, ticks, takes_metrics, exports_metrics, write_custom_metrics, export_tick,
  take_custom_metrics, export_custom_metrics,
}
use lapuacore.Metrics.Conserved.{
  Exports, no_step, next_step, accounted, name_of, weigh_metrics, Exports-accounted,
}

-- A point is the sum of its fields.
abbrev sums : PointApi ℕ ℕ
sums = record {
  new_point = λ name. 0;
  set_timestamp = λ t p. p;
  set_tag = λ k v p. p;
  set_float_field = λ k v p. p + v;
  set_int_field = λ k v p. p + v;
}

abbrev metric : ℕ → CustomMetric ℕ
metric v = record { measurement = "fills"; timestamp = 5; tags = []; fields = ("v", v) ∷ [] }

abbrev idle : Exporting ℕ ℕ
idle = record {
  exporter = record {
    noop_mode = false;
    strategy_name = "maker";
    latency_measurer = [];
    custom_metric_queue = metric 3 ∷ [];
  };
  custom_tasks = 0;
  latency_tasks = 0;
  taken = [];
  collected = [];
  dropped = [];
  written_metrics = [];
  written_latencies = [];
}

abbrev queued : Exporting ℕ ℕ
queued = record idle { exporter = write_custom_metrics (metric 4 ∷ []) idle.exporter }

abbrev in_flight : Exporting ℕ ℕ
in_flight = take_custom_metrics (export_tick queued)

abbrev done : Exporting ℕ ℕ
done = export_custom_metrics sums true (metric 3 ∷ metric 4 ∷ []) (record in_flight { taken = [] })

run : Exports sums idle (metric 4 ∷ []) done
unfolding write_custom_metrics export_tick take_custom_metrics
run =
    next_step
      (next_step
        (next_step (next_step no_step (enqueues (metric 4 ∷ []) idle) refl) (ticks queued) refl)
        (takes_metrics 0 (export_tick queued) refl) refl)
      (exports_metrics true [] [] (metric 3 ∷ metric 4 ∷ []) in_flight refl) refl

Exports-accounted_example :
    (name_of done ≡ name_of idle)
    × (accounted sums (λ p. p) "maker" done
        ≡ accounted sums (λ p. p) "maker" idle
          + weigh_metrics sums (λ p. p) "maker" (metric 4 ∷ []))
Exports-accounted_example = Exports-accounted sums (λ p. p) run
