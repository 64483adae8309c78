-- ===== src/Detector/Baseline.antt =====
-- The baseline phase of a stream of `CUSUMDetector`.
use mathlib.Core.List.{append_assoc}
use seismograph.Prelude.{
  ℕ, suc, ◌+◌, ◌≤◌, ◌<◌, ◌≡◌, ◌≢◌, ◌∙◌, sym, ap, refl, none, List, [], ◌∷◌, ◌++◌, map, inl, inr,
  Bool-cases, arith, leb, ltb, length, length-append, All,
}
use seismograph.Float.{Float}
use seismograph.Detector.{true, false, MetricState, squares, finalize_baseline, update_state, fresh}
use seismograph.Detector.Streams.{Observation, feed}

module _ (fl : Float) where
  abbrev pub values : List (Observation fl) → List fl.Value
  values = map (λ o. o.value)

  -- A stream that still collects its baseline, with the values so far.
  record Warming (m : ℕ) (vs : List fl.Value) (s : MetricState fl) : Type 0 where
    samples : s.min_baseline_samples ≡ m
    empty : s.baseline ≡ none
    held : s.buf ≡ vs

  abbrev advance : MetricState fl → Observation fl → MetricState fl
  advance s o =
      (update_state fl s o.value o.model_tuple o.metric_name o.timestamp_ns o.suite_version).1

  warming_silent :
      (s : MetricState fl) (o : Observation fl)
      → s.baseline ≡ none
      → (update_state fl s o.value o.model_tuple o.metric_name o.timestamp_ns o.suite_version).0
        ≡ none
  unfolding update_state
  warming_silent s o e = ground arith

  Warming-next :
      (m : ℕ) (vs : List fl.Value) (s : MetricState fl) (o : Observation fl)
      → Warming m vs s
      → suc (length vs) < m
      → Warming m (vs ++ o.value ∷ []) (advance s o)
  unfolding update_state
  Warming-next m vs s o w room =
      let short : leb s.min_baseline_samples (length (s.buf ++ o.value ∷ [])) ≡ false =
        rw (w.samples, w.held) (ground (arith, length-append vs (o.value ∷ []))) in
      rw (w.empty, short)
        (record { samples = w.samples; empty = refl; held = ap (λ b. b ++ o.value ∷ []) w.held })

  Warming-done :
      (m : ℕ) (vs : List fl.Value) (s : MetricState fl) (o : Observation fl)
      → Warming m vs s
      → suc (length vs) ≡ m
      → (advance s o).baseline ≡ finalize_baseline fl (vs ++ o.value ∷ [])
  unfolding update_state
  Warming-done m vs s o w full =
      let enough : leb s.min_baseline_samples (length (s.buf ++ o.value ∷ [])) ≡ true =
        rw (w.samples, w.held) (ground (arith, length-append vs (o.value ∷ []))) in
      rw (w.empty, enough) (ap (λ b. finalize_baseline fl (b ++ o.value ∷ [])) w.held)

  feed_silent :
      (m : ℕ) (vs : List fl.Value) (s : MetricState fl) (os : List (Observation fl))
      → Warming m vs s
      → length vs + length os ≤ m
      → All (λ a. a ≡ none) (feed fl s os).0
  unfolding feed
  feed_silent m vs s [] w h = tt
  feed_silent m vs s (o ∷ []) w h = (warming_silent s o w.empty, tt)
  feed_silent m vs s (o ∷ p ∷ os) w h = (
    warming_silent s o w.empty,
    feed_silent m (vs ++ o.value ∷ []) (advance s o) (p ∷ os)
        (Warming-next m vs s o w (omega arith)) (omega (arith, length-append vs (o.value ∷ []))),
  )

  feed-Warming :
      (m : ℕ) (vs : List fl.Value) (s : MetricState fl) (os : List (Observation fl))
      → Warming m vs s
      → length vs < m
      → (length vs + length os < m → (feed fl s os).1.baseline ≡ none)
        × (length vs + length os ≡ m
            → (feed fl s os).1.baseline ≡ finalize_baseline fl (vs ++ values os))
  unfolding feed
  feed-Warming m vs s [] w h = (λ _. w.empty, λ full. absurd (omega arith))
  feed-Warming m vs s (o ∷ []) w h = (
    λ short. (Warming-next m vs s o w (omega arith)).empty,
    λ full. Warming-done m vs s o w (omega arith),
  )
  feed-Warming m vs s (o ∷ p ∷ os) w h = elim (Bool-cases (ltb (suc (length vs)) m)) [
    | inl room ↦
        let more = length-append vs (o.value ∷ []) in
        let (before, after) =
          feed-Warming m (vs ++ o.value ∷ []) (advance s o) (p ∷ os)
            (Warming-next m vs s o w (ground arith)) (ground (arith, more)) in
        (
          λ short. before (omega (arith, more)),
          λ full.
              after (omega (arith, more))
              ∙ ap (finalize_baseline fl) (append_assoc vs (o.value ∷ []) (values (p ∷ os))),
        )
    | inr out ↦ (λ short. absurd (ground arith), λ full. absurd (ground arith))
  ]

  squares_fine :
      (mu : fl.Value) (vs : List fl.Value)
      → All (λ v. fl.square (fl.sub v mu) ≢ none) vs
      → squares fl mu vs ≢ none
  unfolding squares
  squares_fine mu [] h = λ e. cc
  squares_fine mu (v ∷ vs) h = ground (arith, h.0, squares_fine mu vs h.1)

  finalize_fine :
      (vs : List fl.Value)
      → All (λ v. fl.square (fl.sub v (fl.div (fl.total vs) (fl.lit (length vs) 1))) ≢ none) vs
      → finalize_baseline fl vs ≢ none
  unfolding finalize_baseline
  finalize_fine vs h =
      let mu = fl.div (fl.total vs) (fl.lit (length vs) 1) in ground (arith, squares_fine mu vs h)

  -- A fresh stream with a baseline of m samples, for m of at least 1, emits nothing for its first m
  -- observations and has no baseline before the last of them. After m observations it has the one of
  -- their m values, which is there if no square of a distance to their mean overflows.
  pub baseline_phase :
      (m : ℕ) (h k : fl.Value) (os : List (Observation fl))
      → 0 < m
      → (let s = (feed fl (fresh fl m h k) os).1 in
          let vs = values os in
          let mu = fl.div (fl.total vs) (fl.lit (length vs) 1) in
          (length os ≤ m → All (λ a. a ≡ none) (feed fl (fresh fl m h k) os).0)
          × (length os < m → s.baseline ≡ none)
          × (length os ≡ m → s.baseline ≡ finalize_baseline fl vs)
          × (length os ≡ m → All (λ v. fl.square (fl.sub v mu) ≢ none) vs → s.baseline ≢ none))
  unfolding fresh
  baseline_phase m h k os pos_m =
      let w : Warming m [] (fresh fl m h k) = record {
        samples = refl;
        empty = refl;
        held = refl;
      } in
      let (before, after) = feed-Warming m [] (fresh fl m h k) os w pos_m in
      (
        λ short. feed_silent m [] (fresh fl m h k) os w (omega arith),
        λ short. before (omega arith),
        λ full. after (omega arith),
        λ full fine. λ e. finalize_fine (values os) fine (sym (after (omega arith)) ∙ e),
      )
