-- ===== src/Weather/Examples.antt =====
-- The weather of a model with one sample and no alert.
use seismograph.Prelude.{All, ◌≢◌, string_eq, ◌≡◌, ◌↔◌, refl, true, false, none, some, [], ◌∷◌}
use seismograph.Prelude.Int.{pos}
use seismograph.Dict.{get}
use seismograph.Float.Fixed.{fixed}
use seismograph.Repository.{Repository, empty, get_recent_signals, get_recent_alerts}
use seismograph.Weather.{
  stable, drifting, stale, compute_model_weather, ModelWeather, scorable_json_rate,
  json_base_by_suite,
}
use seismograph.Weather.Light.{
  recently_alerted, recently_sampled, published_status, weather_status_iff,
}
use seismograph.Weather.Rates.{Rated, scorable_json_rate-Rated}

abbrev sampled : Repository fixed
sampled = record (empty fixed) {
  signals =
      record {
        id = 1;
        batch_id = "b1";
        timestamp = 1000;
        model_tuple = "gpt";
        avg_output_length = some (pos 5000);
        json_success_rate = some (pos 90);
        result_count = pos 50000;
        fleet_id = none;
        suite_version = "v2.0.0";
      }
      ∷ [];
}

publishes_stable :
    published_status fixed (compute_model_weather fixed sampled "gpt" 2000) ≡ some stable
unfolding compute_model_weather get_recent_alerts get_recent_signals
publishes_stable = refl

publishes_stale :
    published_status fixed (compute_model_weather fixed sampled "gpt" 108000001001) ≡ some stale
unfolding compute_model_weather get_recent_alerts get_recent_signals
publishes_stale = refl

weather_status_iff_example :
    (All (λ s. fixed.truncate s.result_count ≢ none) (get_recent_signals fixed sampled "gpt" 10)
      → compute_model_weather fixed sampled "gpt" 2000 ≢ none)
    × ((w : ModelWeather fixed)
        → compute_model_weather fixed sampled "gpt" 2000 ≡ some w
        → ((w.status ≡ drifting) ↔ (recently_alerted fixed sampled "gpt" 2000 ≡ true))
          × ((w.status ≡ stable) ↔ (
              (recently_alerted fixed sampled "gpt" 2000 ≡ false)
              × (recently_sampled fixed sampled "gpt" 2000 ≡ true))))
weather_status_iff_example = weather_status_iff fixed sampled "gpt" 2000

half_scored : scorable_json_rate fixed (some (pos 90)) (pos 50000) "v2.0.0" ≡ some (some (pos 500))
unfolding scorable_json_rate
half_scored = refl

scorable_json_rate-Rated_example :
    Rated fixed
      (some (pos 90))
      (pos 50000)
      (get "v2.0.0" json_base_by_suite)
      (scorable_json_rate fixed (some (pos 90)) (pos 50000) "v2.0.0")
scorable_json_rate-Rated_example =
    scorable_json_rate-Rated fixed (some (pos 90)) (pos 50000) "v2.0.0"
