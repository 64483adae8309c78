-- ===== src/Weather/Light.antt =====
-- When `_compute_model_weather` publishes which status.
use seismograph.Prelude.{
  ◌≢◌, All, sym, ◌∙◌, ℕ, ◌+◌, ◌-◌, ◌≡◌, ◌↔◌, refl, String, Bool, true, false, Option, none, some,
  List, [], ◌∷◌, leb, both, either, negate, ◌==◌, nat_eq, string_eq, max, keep, arith, Bool-cases,
  inl, inr,
}
use seismograph.Float.{Float}
use seismograph.Dict.{get, or_default}
use seismograph.Repository.{
  Repository, PublicDriftAlert, TelemetrySignal, get_recent_signals, get_recent_alerts, place_alert,
  newest_first,
}
use seismograph.Weather.{
  Status, stable, drifting, status_of, latest, stale_after, alert_window, stamps,
  compute_model_weather, weather_of, rates, add_rate, scorable_json_rate, rate_on, rescale,
  json_base_by_suite, ModelWeather,
}

-- Some item passes.
abbrev pub some_of {ℓ} : {A : Type ℓ} → (A → Bool) → List A → Bool
some_of p [] = false
some_of p (x ∷ xs) = either (p x) (some_of p xs)

is_empty : List PublicDriftAlert → Bool
is_empty [] = true
is_empty (a ∷ alerts) = false

place-is_empty :
    (a : PublicDriftAlert) (bs : List PublicDriftAlert) → is_empty (place_alert a bs) ≡ false
unfolding is_empty
place-is_empty a [] = refl
place-is_empty a (b ∷ bs) = ground arith

recent-is_empty :
    (p : PublicDriftAlert → Bool) (xs : List PublicDriftAlert)
    → is_empty (newest_first (keep p xs)) ≡ negate (some_of p xs)
unfolding is_empty
recent-is_empty p [] = refl
recent-is_empty p (x ∷ xs) = elim (Bool-cases (p x)) [
  | inl here ↦ rw here (place-is_empty x (newest_first (keep p xs)))
  | inr other ↦ rw other (recent-is_empty p xs)
]

status_of-drifting :
    (alerts : List PublicDriftAlert) (window_end : Option ℕ) (now : ℕ)
    → (status_of alerts window_end now ≡ drifting) ↔ (is_empty alerts ≡ false)
unfolding status_of is_empty
status_of-drifting [] none now = ((λ e. absurd cc), (λ e. absurd cc))
status_of-drifting [] (some end) now = ground arith
status_of-drifting (a ∷ alerts) w now = ((λ e. refl), (λ e. refl))

-- A sample is at most the limit old.
abbrev fresh_end : Option ℕ → ℕ → Bool
fresh_end none now = false
fresh_end (some end) now = leb now (end + stale_after)

status_of-stable :
    (alerts : List PublicDriftAlert) (window_end : Option ℕ) (now : ℕ)
    → (status_of alerts window_end now ≡ stable)
      ↔ ((is_empty alerts ≡ true) × (fresh_end window_end now ≡ true))
unfolding status_of is_empty
status_of-stable [] none now = ((λ e. absurd cc), (λ e. absurd cc))
status_of-stable [] (some end) now = ground arith
status_of-stable (a ∷ alerts) w now = ((λ e. absurd cc), (λ e. absurd cc))

fresh_max :
    (t now : ℕ) (o : Option ℕ) (b : Bool)
    → fresh_end o now ≡ b
    → fresh_end (some (max t (or_default 0 o))) now ≡ either (leb now (t + stale_after)) b
fresh_max t now none b h = ground arith
fresh_max t now (some m) b h = ground arith

negate_iff : (a b : Bool) → a ≡ negate b → ((a ≡ false) ↔ (b ≡ true)) × ((a ≡ true) ↔ (b ≡ false))
negate_iff a true h = ground arith
negate_iff a false h = ground arith

module _ (fl : Float) where
  latest-fresh :
      (signals : List (TelemetrySignal fl)) (now : ℕ)
      → fresh_end (latest (stamps fl signals)) now
        ≡ some_of (λ s. leb now (s.timestamp + stale_after)) signals
  unfolding latest
  latest-fresh [] now = refl
  latest-fresh (s ∷ signals) now =
      fresh_max s.timestamp now (latest (stamps fl signals)) _ (latest-fresh signals now)

  -- The public alerts of the model in the last 24 hours, and the samples of the last 30 hours among
  -- the ten newest.
  abbrev pub recently_alerted : Repository fl → String → ℕ → Bool
  recently_alerted repo model_tuple now =
      some_of (λ a. both (a.model_tuple == model_tuple) (leb (now - alert_window) a.timestamp))
        repo.public_alerts

  abbrev pub recently_sampled : Repository fl → String → ℕ → Bool
  recently_sampled repo model_tuple now =
      some_of (λ s. leb now (s.timestamp + stale_after)) (get_recent_signals fl repo model_tuple 10)

  rate_on_fine :
      (raw count : fl.Value) (base : Option (ℕ × ℕ))
      → fl.truncate count ≢ none
      → rate_on fl raw count base ≢ none
  unfolding rate_on rescale
  rate_on_fine raw count base fine = ground arith

  add_rate_fine :
      (o : Option (Option fl.Value)) (rest : Option (List fl.Value))
      → o ≢ none
      → rest ≢ none
      → add_rate fl o rest ≢ none
  add_rate_fine o rest h k = ground arith

  scorable_json_rate_fine :
      (raw : Option fl.Value) (count : fl.Value) (suite : String)
      → fl.truncate count ≢ none
      → scorable_json_rate fl raw count suite ≢ none
  unfolding scorable_json_rate
  scorable_json_rate_fine none count suite fine = λ e. cc
  scorable_json_rate_fine (some raw) count suite fine =
      ground (arith, rate_on_fine raw count (get suite json_base_by_suite) fine)

  rates_fine :
      (signals : List (TelemetrySignal fl))
      → All (λ s. fl.truncate s.result_count ≢ none) signals
      → rates fl signals ≢ none
  rates_fine [] h = λ e. cc
  rates_fine (s ∷ signals) h =
      add_rate_fine (scorable_json_rate fl s.json_success_rate s.result_count s.suite_version)
        (rates fl signals)
        (scorable_json_rate_fine s.json_success_rate s.result_count s.suite_version h.0)
        (rates_fine signals h.1)

  weather_of_status :
      (model_tuple : String) (now : ℕ) (signals : List (TelemetrySignal fl))
      (alerts : List PublicDriftAlert) (o : Option (List fl.Value)) (w : ModelWeather fl)
      → weather_of fl model_tuple now signals alerts o ≡ some w
      → w.status ≡ status_of alerts (latest (stamps fl signals)) now
  unfolding weather_of
  weather_of_status model_tuple now signals alerts none w h = cc
  weather_of_status model_tuple now signals alerts (some rs) w h = cc

  weather_of_fine :
      (model_tuple : String) (now : ℕ) (signals : List (TelemetrySignal fl))
      (alerts : List PublicDriftAlert) (o : Option (List fl.Value))
      → o ≢ none
      → weather_of fl model_tuple now signals alerts o ≢ none
  unfolding weather_of
  weather_of_fine model_tuple now signals alerts none h = λ e. h refl
  weather_of_fine model_tuple now signals alerts (some rs) h = λ e. cc

  -- The weather of a model is computed without an exception if `int` takes the count of each of its
  -- ten newest samples. It is then DRIFTING exactly if a public alert of the model was saved in the
  -- last 24 hours, and STABLE exactly if there is none and one of these samples is at most 30 hours
  -- old.
  pub weather_status_iff :
      (repo : Repository fl) (model_tuple : String) (now : ℕ)
      → (All (λ s. fl.truncate s.result_count ≢ none) (get_recent_signals fl repo model_tuple 10)
          → compute_model_weather fl repo model_tuple now ≢ none)
        × ((w : ModelWeather fl)
            → compute_model_weather fl repo model_tuple now ≡ some w
            → ((w.status ≡ drifting) ↔ (recently_alerted repo model_tuple now ≡ true))
              × ((w.status ≡ stable) ↔ (
                  (recently_alerted repo model_tuple now ≡ false)
                  × (recently_sampled repo model_tuple now ≡ true))))
  unfolding compute_model_weather get_recent_alerts
  weather_status_iff repo model_tuple now =
      let signals = get_recent_signals fl repo model_tuple 10 in
      let alerts = get_recent_alerts fl repo model_tuple (now - alert_window) in
      let end = latest (stamps fl signals) in
      let some_alert : is_empty alerts ≡ negate (recently_alerted repo model_tuple now) =
        recent-is_empty
          (λ a. both (a.model_tuple == model_tuple) (leb (now - alert_window) a.timestamp))
          repo.public_alerts in
      let flip = negate_iff (is_empty alerts) (recently_alerted repo model_tuple now) some_alert in
      let red = status_of-drifting alerts end now in
      let green = status_of-stable alerts end now in
      let samples = latest-fresh signals now in
      (
        λ fine.
            weather_of_fine model_tuple now signals alerts (rates fl signals)
              (rates_fine signals fine),
        λ w h.
            let is = weather_of_status model_tuple now signals alerts (rates fl signals) w h in
            (
              (λ e. flip.0.0 (red.0 (sym is ∙ e)), λ h. is ∙ red.1 (flip.0.1 h)),
              (
                λ e. (flip.1.0 (green.0 (sym is ∙ e)).0, sym samples ∙ (green.0 (sym is ∙ e)).1),
                λ h. is ∙ green.1 (flip.1.1 h.0, samples ∙ h.1),
              ),
            ),
      )

  -- The status that is published, where there is no exception.
  abbrev pub published_status : Option (ModelWeather fl) → Option Status
  published_status none = none
  published_status (some w) = some w.status

  pub published_drifting :
      (o : Option (ModelWeather fl))
      → published_status o ≡ some drifting
      → (w : ModelWeather fl) × ((o ≡ some w) × (w.status ≡ drifting))
  published_drifting none h = cc
  published_drifting (some w) h = (w, (refl, cc))
