-- ===== src/Weather/Floor.antt =====
-- What the quorum floor of the scorer means for the published weather.
use seismograph.Prelude.{
  none, some, some, ◌==◌, both, leb, ◌-◌, both, string_eq, ℕ, ◌<◌, ◌≡◌, ◌≢◌, String, true, false,
  List, All, length, ap,
}
use seismograph.Float.{Float}
use seismograph.Quorum.{quorum_floor}
use seismograph.Repository.{Repository}
use mathlib.Core.Path.{subst}
use seismograph.Gateway.{Host, Gateway, startup, gateway_detector}
use seismograph.Gateway.Startup.{Warmed, start_with, started, bootstrap_detector}
use seismograph.Gateway.Store.{Request, serve}
use seismograph.Gateway.Public.{FromListed, serve_quietly}
use seismograph.Weather.{alert_window, drifting, compute_model_weather}
use seismograph.Weather.Light.{
  some_of, some_of, recently_alerted, published_status, published_drifting, weather_status_iff,
}

started_with :
    (fl : Float) (repo : Repository fl) (w : Warmed fl) (g : Gateway fl)
    → start_with fl repo w ≡ some g
    → record (startup fl repo) { detector = w.1 } ≡ g
started_with fl repo (none, d) g h = cc
started_with fl repo (some total, d) g h = cc

-- Where the repository has no public alert of a model in the last 24 hours at the start, and the
-- gateway warms its shared detector from the stored rows and starts with an empty scorer, the
-- weather of the model is not DRIFTING after any requests, while all signed batches for the public
-- network come from fewer distinct clients than the quorum floor.
pub weather_below_floor :
    (fl : Float) (host : Host fl) (repo : Repository fl) (orgs : List String)
    (rs : List (Request fl host)) (model_tuple : String) (now : ℕ) (g : Gateway fl)
    → length orgs < quorum_floor
    → All (FromListed fl host orgs) rs
    → recently_alerted fl repo model_tuple now ≡ false
    → started fl repo ≡ some g
    → published_status fl (compute_model_weather fl (serve fl host g rs).repo model_tuple now)
      ≢ some drifting
weather_below_floor fl host repo orgs rs model_tuple now g few from quiet running shown =
    let after = (serve fl host g rs).repo in
    let warmed = bootstrap_detector fl (gateway_detector fl) repo in
    let unchanged : after.public_alerts ≡ repo.public_alerts =
      subst (λ h. (serve fl host h rs).repo.public_alerts ≡ repo.public_alerts)
        (started_with fl repo warmed g running)
        (serve_quietly fl host repo warmed.1 orgs rs few from) in
    let (w, (is, red)) =
      published_drifting fl (compute_model_weather fl after model_tuple now) shown in
    let alerted : recently_alerted fl after model_tuple now ≡ true =
      ((weather_status_iff fl after model_tuple now).1 w is).0.0 red in
    let same : recently_alerted fl after model_tuple now
        ≡ recently_alerted fl repo model_tuple now =
      ap
        (λ rows.
          some_of (λ a. both (a.model_tuple == model_tuple) (leb (now - alert_window) a.timestamp))
            rows)
        unchanged in
    absurd cc (alerted, same, quiet)
