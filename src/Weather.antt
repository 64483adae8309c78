-- ===== src/Weather.antt =====
-- gateway/main.py `_compute_model_weather`, what GET /v1/weather publishes for one model, with
-- `_scorable_json_rate`, `_as_published_utc` and `_window_age_hours`. Times are microseconds, and
-- stored times carry no zone, so that publishing one shifts nothing.
pub mod Light
pub mod Rates
pub mod Floor
mod Examples
use seismograph.Prelude.{
  ℕ, ◌+◌, ◌-◌, String, Bool, true, false, Option, none, some, List, [], ◌∷◌, ltb, length, both,
  either, negate, if◌then◌else◌, ◌==◌, nat_eq, string_eq, max, min,
}
use seismograph.Prelude.Int.{ℤ, pos, ◌-ℤ◌}
use seismograph.Dict.{Dict, get, or_default}
use seismograph.Float.{Float, maximum, minimum}
use seismograph.Repository.{
  Repository, PublicDriftAlert, TelemetrySignal, get_recent_signals, get_recent_alerts,
}

-- _JSON_BASE_BY_SUITE
abbrev pub json_base_by_suite : Dict String (ℕ × ℕ)
json_base_by_suite = ("v1.0.0", (3, 1)) ∷ ("v1.1.0", (4, 1)) ∷ ("v2.0.0", (50, 9)) ∷ []

-- 24 and 30 hours
abbrev pub alert_window : ℕ
alert_window = 86400000000

abbrev pub stale_after : ℕ
stale_after = 108000000000

pub data Status : Type 0 where
  stable drifting stale : Status

-- Age above the limit, or no sample at all.
unfoldable pub status_of : List PublicDriftAlert → Option ℕ → ℕ → Status
status_of (a ∷ alerts) window_end now = drifting
status_of [] none now = stale
status_of [] (some end) now = if ltb (end + stale_after) now then stale else stable

-- `max(stamps)` and `min(stamps)`
unfoldable pub latest : List ℕ → Option ℕ
latest [] = none
latest (t ∷ ts) = some (max t (or_default 0 (latest ts)))

unfoldable pub earliest : List ℕ → Option ℕ
earliest [] = none
earliest (t ∷ []) = some t
earliest (t ∷ u ∷ ts) = some (min t (or_default t (earliest (u ∷ ts))))

-- The values that are not None, in order.
abbrev pub present {ℓ κ} : {A : Type ℓ} {B : Type κ} → (A → Option B) → List A → List B
present f [] = []
present f (x ∷ xs) = elim (f x) [ none ↦ present f xs | some y ↦ y ∷ present f xs ]

module _ (fl : Float) where
  -- `int(result_count)`, if it does not raise, against a known suite; a rate over the scorable
  -- canaries of a complete run.
  unfoldable pub rescale : fl.Value → Option ℕ → ℕ → ℕ → Option (Option fl.Value)
  rescale raw_rate none total scorable = none
  rescale raw_rate (some count) total scorable =
      if count == total
      then some (
          some (
            maximum fl (fl.lit 0 1) (
              minimum fl (fl.lit 1 1)
                (fl.div (fl.mul raw_rate (fl.lit total 1)) (fl.lit scorable 1)))))
      else some none

  unfoldable pub rate_on : fl.Value → fl.Value → Option (ℕ × ℕ) → Option (Option fl.Value)
  unfolding rescale
  rate_on raw_rate result_count none = some none
  rate_on raw_rate result_count (some (total, scorable)) =
      rescale raw_rate (fl.truncate result_count) total scorable

  -- The outer none is the ValueError or OverflowError of `int`.
  unfoldable pub scorable_json_rate : Option fl.Value → fl.Value → String → Option (Option fl.Value)
  unfolding rate_on
  scorable_json_rate none result_count suite_version = some none
  scorable_json_rate (some raw_rate) result_count suite_version =
      if fl.leb result_count (fl.lit 0 1)
      then some none
      else rate_on raw_rate result_count (get suite_version json_base_by_suite)

  pub record ModelWeather : Type 0 where
    pub model_tuple : String
    pub status : Status
    pub last_alert_timestamp : Option ℕ
    pub recent_avg_output_length : Option fl.Value
    pub recent_json_success_rate : Option fl.Value
    pub sample_count : ℕ
    pub json_sample_count : ℕ
    pub length_sample_count : ℕ
    pub window_start : Option ℕ
    pub window_end : Option ℕ
    pub window_age : Option ℤ

  -- `sum(xs) / len(xs) if xs else None`
  unfoldable pub average : List fl.Value → Option fl.Value
  average [] = none
  average (x ∷ xs) = some (fl.div (fl.total (x ∷ xs)) (fl.lit (length (x ∷ xs)) 1))

  abbrev pub stamps : List (TelemetrySignal fl) → List ℕ
  stamps [] = []
  stamps (s ∷ ss) = s.timestamp ∷ stamps ss

  -- One row's rate before the others; none is the exception that leaves the function.
  abbrev pub add_rate : Option (Option fl.Value) → Option (List fl.Value) → Option (List fl.Value)
  add_rate none rest = none
  add_rate (some none) rest = rest
  add_rate (some (some rate)) none = none
  add_rate (some (some rate)) (some rest) = some (rate ∷ rest)

  abbrev pub rates : List (TelemetrySignal fl) → Option (List fl.Value)
  rates [] = some []
  rates (s ∷ ss) =
      add_rate (scorable_json_rate s.json_success_rate s.result_count s.suite_version) (rates ss)

  abbrev head_time : List PublicDriftAlert → Option ℕ
  head_time [] = none
  head_time (a ∷ alerts) = some a.timestamp

  unfoldable pub weather_of :
      String
      → ℕ
      → List (TelemetrySignal fl)
      → List PublicDriftAlert
      → Option (List fl.Value)
      → Option ModelWeather
  unfolding status_of latest earliest average
  weather_of model_tuple now signals recent_alerts none = none
  weather_of model_tuple now signals recent_alerts (some json_rates) =
      let lengths = present (λ s. s.avg_output_length) signals in
      let window_end = latest (stamps signals) in
      some (record {
        model_tuple = model_tuple;
        status = status_of recent_alerts window_end now;
        last_alert_timestamp = head_time recent_alerts;
        recent_avg_output_length = average lengths;
        recent_json_success_rate = average json_rates;
        sample_count = length signals;
        json_sample_count = length json_rates;
        length_sample_count = length lengths;
        window_start = earliest (stamps signals);
        window_end = window_end;
        window_age = elim window_end [ none ↦ none | some end ↦ some (pos now -ℤ pos end) ];
      })

  unfoldable pub compute_model_weather : Repository fl → String → ℕ → Option ModelWeather
  unfolding weather_of scorable_json_rate
  compute_model_weather repo model_tuple now =
      let signals = get_recent_signals fl repo model_tuple 10 in
      weather_of model_tuple now signals
        (get_recent_alerts fl repo model_tuple (now - alert_window)) (rates signals)
