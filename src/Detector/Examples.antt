-- ===== src/Detector/Examples.antt =====
-- Runs of the CUSUM detector of engine/detector.py over fixed-point numbers, and its theorems at
-- concrete inputs.
use seismograph.Prelude.{
  arith, arith, ◌<◌, All, ◌≤◌, ℕ, ◌≡◌, ◌≢◌, refl, String, none, some, List, [], ◌∷◌, triple_eq,
}
use seismograph.Prelude.Int.{ℤ, pos, negsuc, ◌+ℤ◌, ◌-ℤ◌}
use seismograph.Float.Fixed.{fixed}
use seismograph.Detector.Baseline.{values, baseline_phase}
use seismograph.Detector.{
  length, negative, DriftAlert, MetricState, Detector, init, fresh, update_state, reset,
  finalize_baseline, tracked_streams,
}
use seismograph.Detector.Streams.{feed, Observation, ActsAlone, run-ActsAlone}
use seismograph.Detector.Alerts.{Describes, update_state-Describes}

abbrev observation : String → ℤ → ℕ → Observation fixed
observation suite v ts = record {
  model_tuple = "gpt";
  metric_name = "json";
  value = v;
  timestamp_ns = ts;
  suite_version = suite;
}

-- Two suites in turn. The second value of v2 ends its baseline, and the later ones drift upwards.
abbrev mixed : List (Observation fixed)
mixed =
    observation "v1" (pos 900) 1
    ∷ observation "v2" (pos 0) 2
    ∷ observation "v1" (pos 900) 3
    ∷ observation "v2" (pos 2000) 4
    ∷ observation "v2" (pos 9000) 5
    ∷ observation "v1" (pos 900) 6
    ∷ []

abbrev detector : Detector fixed
detector = record { h = pos 5000; k = pos 500; baseline_samples = 2; states = [] }

init_detector : init fixed (pos 5000) (pos 500) (some 2) ≡ detector
unfolding init
init_detector = refl

-- A stream with mean 0 and deviation 1.
abbrev warm : MetricState fixed
warm = record {
  min_baseline_samples = 2;
  h = pos 5000;
  k = pos 500;
  buf = pos 0 ∷ pos 0 ∷ [];
  baseline = some (pos 0, pos 1000);
  s_pos = pos 0;
  s_neg = pos 0;
  n = 2;
}

abbrev drifted : DriftAlert fixed
drifted = record {
  timestamp_ns = 7;
  model_tuple = "gpt";
  metric_name = "json";
  direction = negative;
  cusum_score = pos 5500;
  threshold = pos 5000;
  window_count = 3;
  suite_version = "v2";
}

baseline_of_two : finalize_baseline fixed (pos 800 ∷ pos 1000 ∷ []) ≡ some (pos 900, pos 141)
unfolding finalize_baseline ◌+ℤ◌ ◌-ℤ◌
baseline_of_two = refl

drifts_down : (update_state fixed warm (negsuc 5999) "gpt" "json" 7 "v2").0 ≡ some drifted
unfolding update_state ◌+ℤ◌ ◌-ℤ◌
drifts_down = refl

run-ActsAlone_example : ActsAlone fixed detector mixed ("gpt", "v2", "json")
run-ActsAlone_example = run-ActsAlone fixed detector mixed ("gpt", "v2", "json")

update_state-Describes_example :
    (warm.baseline ≢ none) × Describes fixed warm "gpt" "json" 7 "v2" drifted
update_state-Describes_example =
    update_state-Describes fixed warm (negsuc 5999) "gpt" "json" 7 "v2" drifted drifts_down

silent : (update_state fixed warm (pos 3000) "gpt" "json" 7 "v2").0 ≡ none
unfolding update_state ◌+ℤ◌ ◌-ℤ◌
silent = refl

abbrev two : List (Observation fixed)
two = observation "v1" (pos 900) 1 ∷ observation "v1" (pos 800) 2 ∷ []

baseline_phase_example :
    (let s = (feed fixed (fresh fixed 2 (pos 5000) (pos 500)) two).1 in
      let vs = values fixed two in
      let mu = fixed.div (fixed.total vs) (fixed.lit (length vs) 1) in
      (2 ≤ 2 → All (λ a. a ≡ none) (feed fixed (fresh fixed 2 (pos 5000) (pos 500)) two).0)
      × (2 < 2 → s.baseline ≡ none)
      × (length two ≡ 2 → s.baseline ≡ finalize_baseline fixed vs)
      × (length two ≡ 2 → All (λ v. fixed.square (fixed.sub v mu) ≢ none) vs → s.baseline ≢ none))
baseline_phase_example = baseline_phase fixed 2 (pos 5000) (pos 500) two (omega arith)

abbrev tracking : Detector fixed
tracking = record detector {
  states = (("gpt", "v1", "json"), warm) ∷ (("gpt", "v2", "length"), warm) ∷ [];
}

tracks_two :
    tracked_streams fixed (reset fixed tracking "gpt" (some "json") none)
    ≡ ("gpt", "v2", "length") ∷ []
unfolding reset tracked_streams
tracks_two = refl
