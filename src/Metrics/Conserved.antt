-- ===== src/Metrics/Conserved.antt =====
-- No point of a custom metric of metrics/exporter.go is lost silently or written twice.
use lapuacore.Common.{
  ℕ, ◌+◌, ◌≡◌, refl, ap, ◌∙◌, subst, true, false, List, [], ◌∷◌, ◌++◌, String, Bool-cases, inl, inr,
  arith,
}
use lapuacore.Metrics.Measurements.{PointApi, CustomMetric}
use lapuacore.Metrics.Exporter.{
  Exporting, ExportStep, enqueues, measures, ticks, takes_metrics, takes_latencies, exports_metrics,
  exports_latencies, write_custom_metrics, export_tick, discard_custom_metrics,
  discard_ws_latencies, collect_latencies, take_custom_metrics, take_latencies, points_of,
  export_custom_metrics, export_latencies,
}

abbrev pub name_of : {P F : Type 0} → Exporting P F → String
name_of s = s.exporter.strategy_name

module _ {P F : Type 0} (api : PointApi P F) where
  -- A run, with the metrics that are handed over in it.
  pub data Exports (s : Exporting P F) : List (CustomMetric F) → Exporting P F → Type 0 where
    no_step : Exports s [] s
    next_step :
        {ms new all : List (CustomMetric F)} {t u : Exporting P F}
        → Exports s ms t
        → ExportStep api t new u
        → all ≡ ms ++ new
        → Exports s all u

  -- The total weight of points, of the points of metrics, and of batches of metrics.
  abbrev pub weigh : (P → ℕ) → List P → ℕ
  weigh f [] = 0
  weigh f (p ∷ ps) = f p + weigh f ps

  abbrev pub weigh_metrics : (P → ℕ) → String → List (CustomMetric F) → ℕ
  weigh_metrics f strategy ms = weigh f (points_of api strategy ms)

  abbrev pub weigh_batches : (P → ℕ) → String → List (List (CustomMetric F)) → ℕ
  weigh_batches f strategy [] = 0
  weigh_batches f strategy (ms ∷ l) = weigh_metrics f strategy ms + weigh_batches f strategy l

  weigh-append : (f : P → ℕ) (ps qs : List P) → weigh f (ps ++ qs) ≡ weigh f ps + weigh f qs
  weigh-append f [] qs = omega arith
  weigh-append f (p ∷ ps) qs = omega (arith, weigh-append f ps qs)

  weigh_metrics-append :
      (f : P → ℕ) (strategy : String) (ms ns : List (CustomMetric F))
      → weigh_metrics f strategy (ms ++ ns)
        ≡ weigh_metrics f strategy ms + weigh_metrics f strategy ns
  unfolding points_of
  weigh_metrics-append f strategy [] ns = omega arith
  weigh_metrics-append f strategy (m ∷ ms) ns =
      ground (arith, weigh_metrics-append f strategy ms ns)

  weigh_batches-append :
      (f : P → ℕ) (strategy : String) (k l : List (List (CustomMetric F)))
      → weigh_batches f strategy (k ++ l) ≡ weigh_batches f strategy k + weigh_batches f strategy l
  weigh_batches-append f strategy [] l = omega arith
  weigh_batches-append f strategy (ms ∷ k) l = omega (arith, weigh_batches-append f strategy k l)

  -- Everything that was not given up is in the queue, in a batch, or written.
  abbrev pub accounted : (P → ℕ) → String → Exporting P F → ℕ
  accounted f strategy s =
      weigh_metrics f strategy s.exporter.custom_metric_queue
      + weigh_batches f strategy s.taken
      + weigh_metrics f strategy s.dropped
      + weigh f s.written_metrics

  step-accounted :
      (f : P → ℕ) {t : Exporting P F} {new : List (CustomMetric F)} {u : Exporting P F}
      → ExportStep api t new u
      → (name_of u ≡ name_of t)
        × (accounted f (name_of t) u ≡ accounted f (name_of t) t + weigh_metrics f (name_of t) new)
  unfolding write_custom_metrics export_tick discard_custom_metrics discard_ws_latencies
      collect_latencies take_custom_metrics take_latencies export_custom_metrics export_latencies
      points_of
  step-accounted f (enqueues ms s) =
      (refl, omega (arith, weigh_metrics-append f (name_of s) s.exporter.custom_metric_queue ms))
  step-accounted f (measures ms s) = (refl, omega arith)
  step-accounted f (ticks s) = elim (Bool-cases s.exporter.noop_mode) [
    | inl noop ↦ rw noop (
      refl,
      omega (arith, weigh_metrics-append f (name_of s) s.dropped s.exporter.custom_metric_queue),
    )
    | inr busy ↦ rw busy (refl, omega arith)
  ]
  step-accounted f (takes_metrics n s e) = (
    refl,
    omega (arith, weigh_batches-append f (name_of s) s.taken (s.exporter.custom_metric_queue ∷ [])),
  )
  step-accounted f (takes_latencies n s e) = (refl, omega arith)
  step-accounted f (exports_metrics true before after ms s e) = (
    refl,
    omega (
      arith,
      ap (weigh_batches f (name_of s)) e,
      weigh_batches-append f (name_of s) before (ms ∷ after),
      weigh_batches-append f (name_of s) before after,
      weigh-append f s.written_metrics (points_of api (name_of s) ms),
    ),
  )
  step-accounted f (exports_metrics false before after ms s e) = (
    refl,
    omega (
      arith,
      ap (weigh_batches f (name_of s)) e,
      weigh_batches-append f (name_of s) before (ms ∷ after),
      weigh_batches-append f (name_of s) before after,
      weigh_metrics-append f (name_of s) s.dropped ms,
    ),
  )
  step-accounted f (exports_latencies true before after ls s e) = (refl, omega arith)
  step-accounted f (exports_latencies false before after ls s e) = (refl, omega arith)

  -- In any run, with calls, ticks and goroutines in any order: what is waiting, in flight, given up and
  -- written at the end are, point for point, what was so at the start and the metrics handed over since.
  -- None vanishes and none is written twice. The name of the strategy stays, and so do the points that
  -- a metric makes.
  pub Exports-accounted :
      (f : P → ℕ) {s : Exporting P F} {ms : List (CustomMetric F)} {t : Exporting P F}
      → Exports s ms t
      → (name_of t ≡ name_of s)
        × (accounted f (name_of s) t ≡ accounted f (name_of s) s + weigh_metrics f (name_of s) ms)
  unfolding points_of
  Exports-accounted f no_step = (refl, omega arith)
  Exports-accounted f {s} (next_step {ms} {new} {t = t} {u = u} run step split) =
      let (name, sum) = Exports-accounted f run in
      let (name', sum') = step-accounted f step in
      let moved : accounted f (name_of s) u
          ≡ accounted f (name_of s) t + weigh_metrics f (name_of s) new =
        subst (λ n. accounted f n u ≡ accounted f n t + weigh_metrics f n new) name sum' in
      (
        name' ∙ name,
        omega (
          arith,
          moved,
          sum,
          ap (weigh_metrics f (name_of s)) split,
          weigh_metrics-append f (name_of s) ms new,
        ),
      )
