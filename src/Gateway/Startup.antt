-- ===== src/Gateway/Startup.antt =====
-- gateway/main.py `bootstrap_detector`, which warms the shared detector from the stored rows, with
-- `SignalRepository.get_all_model_tuples`. Its counts by suite only go to the log.
use seismograph.Prelude.{
  Triple, ℕ, suc, ◌+◌, ◌*◌, String, Bool, true, false, Option, none, some, List, [], ◌∷◌, map, ltb,
  if◌then◌else◌, ◌==◌, nat_eq, string_eq, triple_eq,
}
use mathlib.Core.List.{reverse}
use seismograph.Dict.Keys.{contains}
use seismograph.Float.{Float}
use seismograph.Schema.{codes}
use seismograph.Detector.{Detector, update, state_of, overflowed}
use seismograph.Gateway.{Gateway, startup, gateway_detector}
use seismograph.Repository.{Repository, TelemetrySignal, get_recent_signals}

-- Python's `<=` on texts, by their characters.
abbrev pub codes_le : List ℕ → List ℕ → Bool
codes_le [] ys = true
codes_le (x ∷ xs) [] = false
codes_le (x ∷ xs) (y ∷ ys) =
    let rest = codes_le xs ys in if ltb x y then true else if x == y then rest else false

-- `select(model_tuple).distinct()`
abbrev pub distinct : List String → List String
distinct [] = []
distinct (x ∷ xs) = let rest = distinct xs in if contains x rest then rest else x ∷ rest

abbrev pub place_tuple : String → List String → List String
place_tuple x [] = x ∷ []
place_tuple x (y ∷ ys) =
    let rest = place_tuple x ys in if codes_le (codes x) (codes y) then x ∷ y ∷ ys else y ∷ rest

-- `sorted`
abbrev pub sorted_tuples : List String → List String
sorted_tuples [] = []
sorted_tuples (x ∷ xs) = place_tuple x (sorted_tuples xs)

module _ (fl : Float) where
  unfoldable pub get_all_model_tuples : Repository fl → List String
  get_all_model_tuples r = sorted_tuples (distinct (map (λ s. s.model_tuple) r.signals))

  -- The running total and the detector; alerts are dropped. The total is none once an update has
  -- raised, which ends the bootstrap.
  abbrev pub Warmed : Type 0
  Warmed = Option ℕ × Detector fl

  -- One value of one row, if it has it; `i` is the number of the row.
  unfoldable pub warm_value : String → ℕ → String → String → Option fl.Value → Warmed → Warmed
  warm_value model_tuple i suite_version metric_name none w = w
  warm_value model_tuple i suite_version metric_name (some value) (none, d) = (none, d)
  warm_value model_tuple i suite_version metric_name (some value) (some total, d) =
      let d' = (update fl d model_tuple metric_name value (i * 1000000) suite_version).1 in
      let key : Triple = (model_tuple, suite_version, metric_name) in
      (if overflowed fl (state_of fl d' key) then none else some (total + 1), d')

  unfoldable pub warm_signal : String → ℕ → TelemetrySignal fl → Warmed → Warmed
  warm_signal model_tuple i s w =
      warm_value model_tuple i s.suite_version "avg_output_length" s.avg_output_length
        (warm_value model_tuple i s.suite_version "json_success_rate" s.json_success_rate w)

  -- The rows from number `i` on.
  unfoldable pub warm_signals : String → ℕ → List (TelemetrySignal fl) → Warmed → Warmed
  warm_signals model_tuple i [] w = w
  warm_signals model_tuple i (s ∷ signals) w =
      warm_signals model_tuple (suc i) signals (warm_signal model_tuple i s w)

  unfoldable pub warm_tuples : Repository fl → List String → Warmed → Warmed
  warm_tuples r [] w = w
  warm_tuples r (model_tuple ∷ tuples) w =
      warm_tuples r tuples
        (warm_signals model_tuple 0 (reverse (get_recent_signals fl r model_tuple 50)) w)

  unfoldable pub bootstrap_detector : Detector fl → Repository fl → Warmed
  bootstrap_detector d r = warm_tuples r (get_all_model_tuples r) (some 0, d)

  -- `lifespan`: the gateway that takes requests; none is an exception of the bootstrap.
  abbrev pub start_with : Repository fl → Warmed → Option (Gateway fl)
  start_with r (none, d) = none
  start_with r (some total, d) = some (record (startup fl r) { detector = d })

  abbrev pub started : Repository fl → Option (Gateway fl)
  started r = start_with r (bootstrap_detector (gateway_detector fl) r)
