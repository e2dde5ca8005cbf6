-- ===== src/Gateways/Latency/Kept.antt =====
-- No measurement of internal/gateways/latency_measurer.go is lost or counted twice.
use lapuacore.Common.{
  ℕ, ◌+◌, ◌≡◌, ap, ◌∙◌, List, [], ◌∷◌, ◌++◌, String, ◌==◌, string_eq, if◌then◌else◌, arith,
  Bool-cases, inl, inr,
}
use lapuacore.Mutex.Map.{Map, get, set}
use lapuacore.Mutex.Map.Laws.{get-set}
use lapuacore.Gateways.Latency.{
  AggLatency, AggLatencyMapWithTime, LatencyMeasurer, new_latency_measurer, aggregate,
  export_history, record_latency, add_latency, or_new,
}

pub data Call : Type 0 where
  records : String → ℕ → Call
  aggregates : ℕ → Call
  exports : Call

-- The measurer and what was exported so far.
unfoldable pub call :
    Call
    → LatencyMeasurer × List AggLatencyMapWithTime
    → LatencyMeasurer × List AggLatencyMapWithTime
unfolding record_latency aggregate export_history
call (records topic latency) (m, out) = (record_latency topic latency m, out)
call (aggregates now) (m, out) = (aggregate now m, out)
call exports (m, out) = let (m', h) = export_history m in (m', out ++ h)

abbrev pub call_all :
    List Call
    → LatencyMeasurer × List AggLatencyMapWithTime
    → LatencyMeasurer × List AggLatencyMapWithTime
call_all [] s = s
call_all (c ∷ l) s = call_all l (call c s)

-- The measurements of a topic in a map, in a history, and everywhere.
abbrev pub count : String → Map String AggLatency → ℕ
count topic m = (or_new (get topic m)).counter

abbrev pub count_all : String → List AggLatencyMapWithTime → ℕ
count_all topic [] = 0
count_all topic (h ∷ l) = count topic h.latencies + count_all topic l

abbrev pub kept : String → LatencyMeasurer × List AggLatencyMapWithTime → ℕ
kept topic (m, out) = count topic m.current + count_all topic m.history + count_all topic out

abbrev pub recorded : String → List Call → ℕ
recorded topic [] = 0
recorded topic (records t x ∷ l) = (if t == topic then 1 else 0) + recorded topic l
recorded topic (_ ∷ l) = recorded topic l

count_all-append :
    (topic : String) (l k : List AggLatencyMapWithTime)
    → count_all topic (l ++ k) ≡ count_all topic l + count_all topic k
count_all-append topic [] k = omega arith
count_all-append topic (h ∷ l) k = omega (arith, count_all-append topic l k)

count-record :
    (topic t : String) (x : ℕ) (m : Map String AggLatency)
    → count topic (set t (add_latency x (or_new (get t m))) m)
      ≡ (if t == topic then 1 else 0) + count topic m
unfolding add_latency
count-record topic t x m =
    ap (λ o. (or_new o).counter) (get-set t topic (add_latency x (or_new (get t m))) m)
    ∙ elim (Bool-cases (t == topic)) [
      | inl e ↦
          let same = ap (λ k. (or_new (get k m)).counter) ((string_eq.beq_iff t topic).0 e) in
          rw e (omega (arith, same))
      | inr e ↦ rw e (omega arith)
    ]

kept-call :
    (topic : String) (c : Call) (s : LatencyMeasurer × List AggLatencyMapWithTime)
    → kept topic (call c s) ≡ recorded topic (c ∷ []) + kept topic s
unfolding call record_latency aggregate export_history get
kept-call topic (records t x) (m, out) = omega (arith, count-record topic t x m.current)
kept-call topic (aggregates now) (m, out) =
    omega
      (arith, count_all-append topic m.history (record { time = now; latencies = m.current } ∷ []))
kept-call topic exports (m, out) = omega (arith, count_all-append topic out m.history)

recorded-split :
    (topic : String) (c : Call) (l : List Call)
    → recorded topic (c ∷ l) ≡ recorded topic (c ∷ []) + recorded topic l
recorded-split topic (records t x) l = omega arith
recorded-split topic (aggregates now) l = omega arith
recorded-split topic exports l = omega arith

call_all-kept :
    (topic : String) (l : List Call) (s : LatencyMeasurer × List AggLatencyMapWithTime)
    → kept topic (call_all l s) ≡ recorded topic l + kept topic s
call_all-kept topic [] s = omega arith
call_all-kept topic (c ∷ l) s =
    omega (arith, call_all-kept topic l (call c s), kept-call topic c s, recorded-split topic c l)

-- After any calls of a new measurer, in any order, the measurements of each topic that are being
-- gathered, wait for an export or were exported are as many as were recorded: none is lost, and none
-- counted twice.
pub call_all-recorded :
    (topic : String) (l : List Call)
    → kept topic (call_all l (new_latency_measurer, [])) ≡ recorded topic l
unfolding new_latency_measurer get
call_all-recorded topic l = omega (arith, call_all-kept topic l (new_latency_measurer, []))
