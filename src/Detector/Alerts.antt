-- ===== src/Detector/Alerts.antt =====
-- When a stream of `CUSUMDetector` alerts, and what the alert says.
use seismograph.Prelude.{◌≢◌, ℕ, ◌+◌, ◌≡◌, ◌↔◌, String, true, false, Option, none, some, arith}
use seismograph.Float.{Float, FloatLaws, maximum_zero}
use seismograph.Detector.{DriftAlert, MetricState, update_state, observe_in}

module _ (fl : Float) where
  -- The accumulators of a stream are never below 0.
  abbrev pub NonNegative : MetricState fl → Type 0
  NonNegative s = (fl.ltb s.s_pos (fl.lit 0 1) ≡ false) × (fl.ltb s.s_neg (fl.lit 0 1) ≡ false)

  observe_in-NonNegative :
      (laws : FloatLaws fl) (b : Option (fl.Value × fl.Value)) (s : MetricState fl) (v : fl.Value)
      (mt metric : String) (ts : ℕ) (suite : String)
      → NonNegative s
      → NonNegative (observe_in fl b s v mt metric ts suite).1
  unfolding observe_in
  observe_in-NonNegative laws none s v mt metric ts suite h = ground arith
  observe_in-NonNegative laws (some (mu0, sigma0)) s v mt metric ts suite h =
      (maximum_zero fl laws _, maximum_zero fl laws _)

  -- Neither accumulator of a stream is below 0 after an observation if neither was before it.
  update_state-NonNegative :
      (laws : FloatLaws fl) (s : MetricState fl) (v : fl.Value) (mt metric : String) (ts : ℕ)
      (suite : String)
      → NonNegative s
      → NonNegative (update_state fl s v mt metric ts suite).1
  unfolding update_state
  update_state-NonNegative laws s v mt metric ts suite h =
      observe_in-NonNegative laws s.baseline (record s { n = s.n + 1 }) v mt metric ts suite h

  -- What an alert must say about the observation that it came with.
  pub record Describes (s : MetricState fl) (mt metric : String) (ts : ℕ) (suite : String)
      (a : DriftAlert fl) : Type 0 where
    pub exceeds : fl.ltb a.threshold a.cusum_score ≡ true
    pub threshold : a.threshold ≡ s.h
    pub window_count : a.window_count ≡ s.n + 1
    pub model_tuple : a.model_tuple ≡ mt
    pub metric_name : a.metric_name ≡ metric
    pub timestamp_ns : a.timestamp_ns ≡ ts
    pub suite_version : a.suite_version ≡ suite

  -- An alert is never emitted before the baseline is ready, its score is above its threshold, and
  -- it names the observation's labels, the stream's threshold and its count of observations.
  pub update_state-Describes :
      (s : MetricState fl) (v : fl.Value) (mt metric : String) (ts : ℕ) (suite : String)
      (a : DriftAlert fl)
      → (update_state fl s v mt metric ts suite).0 ≡ some a
      → (s.baseline ≢ none) × Describes s mt metric ts suite a
  unfolding update_state
  update_state-Describes s v mt metric ts suite a h = ground arith

  -- The state after an observation does not depend on its labels, and neither does whether it alerts.
  update_state_relabel :
      (s : MetricState fl) (v : fl.Value) (mt mt' metric metric' : String) (ts ts' : ℕ)
      (suite suite' : String)
      → ((update_state fl s v mt metric ts suite).1
          ≡ (update_state fl s v mt' metric' ts' suite').1)
        × (((update_state fl s v mt metric ts suite).0 ≡ none)
            ↔ ((update_state fl s v mt' metric' ts' suite').0 ≡ none))
  unfolding update_state
  update_state_relabel s v mt mt' metric metric' ts ts' suite suite' = ground arith

  -- On a stream whose baseline is ready, no alert means that neither accumulator is above h.
  update_state_silent :
      (s : MetricState fl) (v : fl.Value) (mt metric : String) (ts : ℕ) (suite : String)
      → s.baseline ≢ none
      → (update_state fl s v mt metric ts suite).0 ≡ none
      → (fl.ltb s.h (update_state fl s v mt metric ts suite).1.s_pos ≡ false)
        × (fl.ltb s.h (update_state fl s v mt metric ts suite).1.s_neg ≡ false)
  unfolding update_state
  update_state_silent s v mt metric ts suite ready h = ground arith
