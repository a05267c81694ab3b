-- ===== src/Metrics/Snapshots.antt =====
-- What the metrics show: each event once, and the events of the last minute.
use throttr.Prelude.{ℕ, ◌+◌, ◌%◌, ◌<◌, List, [], ◌∷◌, ◌++◌, ◌≡◌, refl, ◌∙◌, ap, arith}
use throttr.Protocol.{u64_mod}
use throttr.Metrics.{Metric, mark, compute}

-- What happens to a metric, oldest first.
pub data MetricEvent : Type 0 where
  marks : ℕ → MetricEvent
  computes : MetricEvent

unfoldable pub after_event : Metric → MetricEvent → Metric
after_event m (marks n) = mark n m
after_event m computes = compute m

unfoldable pub after_events : Metric → List MetricEvent → Metric
after_events m [] = m
after_events m (e ∷ es) = after_events (after_event m e) es

-- All that was marked.
unfoldable pub marked : List MetricEvent → ℕ
marked [] = 0
marked (marks n ∷ es) = n + marked es
marked (computes ∷ es) = marked es

abbrev pub all_marks : List ℕ → List MetricEvent
all_marks [] = []
all_marks (n ∷ ns) = marks n ∷ all_marks ns

accumulator-after_events :
    (m : Metric) (es : List MetricEvent)
    → m.accumulator < u64_mod
    → (after_events m es).accumulator ≡ (m.accumulator + marked es) % u64_mod
unfolding after_events after_event marked mark compute
accumulator-after_events m [] small = omega (arith, small)
accumulator-after_events m (marks n ∷ es) small =
    omega (arith, accumulator-after_events (mark n m) es (omega arith))
accumulator-after_events m (computes ∷ es) small = accumulator-after_events (compute m) es small

after_events-append :
    (m : Metric) (es fs : List MetricEvent)
    → after_events m (es ++ fs) ≡ after_events (after_events m es) fs
unfolding after_events
after_events-append m [] fs = refl
after_events-append m (e ∷ es) fs = after_events-append (after_event m e) es fs

count-all_marks :
    (m : Metric) (ns : List ℕ)
    → m.count < u64_mod
    → (after_events m (all_marks ns)).count ≡ (m.count + marked (all_marks ns)) % u64_mod
unfolding after_events after_event marked mark
count-all_marks m [] small = omega (arith, small)
count-all_marks m (n ∷ ns) small = omega (arith, count-all_marks (mark n m) ns (omega arith))

-- After two computes a metric shows per minute the sum of what was marked between them, and as
-- its accumulator the sum of all that was ever marked, both on 64 bits; for an accumulator that
-- started on 64 bits.
pub after_events_lem :
    (m : Metric) (es : List MetricEvent) (ns : List ℕ)
    → m.accumulator < u64_mod
    → let all = es ++ computes ∷ (all_marks ns ++ computes ∷ []) in
      ((after_events m all).per_minute ≡ marked (all_marks ns) % u64_mod)
      × ((after_events m all).accumulator ≡ (m.accumulator + marked all) % u64_mod)
unfolding after_events after_event compute
after_events_lem m es ns small =
    let before = after_events m es in
    (
      ap (λ (x : Metric). x.per_minute)
            (after_events-append m es (computes ∷ (all_marks ns ++ computes ∷ []))
              ∙ after_events-append (compute before) (all_marks ns) (computes ∷ []))
          ∙ from_zero _ (count-all_marks (compute before) ns (omega arith)),
      accumulator-after_events m (es ++ computes ∷ (all_marks ns ++ computes ∷ [])) small,
    )
  where
    from_zero : {a : ℕ} (b : ℕ) → a ≡ (0 + b) % u64_mod → a ≡ b % u64_mod
    from_zero b h = omega (arith, h)
