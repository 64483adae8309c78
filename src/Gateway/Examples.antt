-- ===== src/Gateway/Examples.antt =====
-- Tests of the gateway on a host with four bodies, where the signature "ok" verifies.
use mathlib.Core.Path.{ap, subst}
use seismograph.Prelude.{
  map, ◌≢◌, ◌≡◌, refl, String, Triple, triple_eq, length, keep, true, Option, none, some, [], ◌∷◌,
  ◌==◌, string_eq, nat_eq, arith,
}
use seismograph.Prelude.Int.{pos}
use seismograph.Dict.Keys.{contains, Distinct}
use seismograph.Float.Fixed.{fixed}
use seismograph.Schema.{Batch}
use seismograph.Detector.{overflowed, update, state_of, tracked_streams}
use seismograph.Detector.Streams.{feed, stream}
use seismograph.Repository.{Repository, save_batch, has_batch, empty, get_recent_signals}
use seismograph.Gateway.{
  List, Gateway, Host, startup, gateway_detector, accepted, conflict, unauthorized, unprocessable,
  ingest_signals,
}
use seismograph.Weather.{drifting, compute_model_weather}
use seismograph.Weather.Light.{published_status}
use seismograph.Weather.Floor.{weather_below_floor}
use seismograph.Gateway.Loop.{IsRefusal}
use seismograph.Gateway.Store.{Request, handle, serve, batch_ids, serve-Distinct, replay_refused}
use seismograph.Gateway.Fleet.{
  SameButFleet, fleet_batch_isolated, public_batch_isolated, SameFleets,
}
use seismograph.Gateway.Startup.{
  started, start_with, bootstrap_detector, get_all_model_tuples, warm_tuples, warm_signals,
  warm_signal, warm_value,
}
use seismograph.Gateway.Warmup.{history, bootstrap_detector-history}
use seismograph.Gateway.Public.{serve_below_floor}
use seismograph.Gateway.Backed.{Backed, handle-Backed}

abbrev batch : String → String → Option String → Batch fixed
batch id client fleet = record {
  batch_id = id;
  client_id = client;
  window_start = record { micros = 1; aware = true };
  window_end = record { micros = 2; aware = true };
  model_tuple = "gpt";
  suite_version = "v1.0.0";
  metrics = ("json_success_rate", pos 900) ∷ [];
  canary_hashes = [];
  result_count = 3;
  fleet_id = fleet;
}

data Body : Type 0 where
  first_body second_body fleet_body garbage : Body

abbrev parse_body : Body → Option (Batch fixed)
parse_body first_body = some (batch "b0" "alice" none)
parse_body second_body = some (batch "b1" "alice" none)
parse_body fleet_body = some (batch "b2" "bob" (some "fleet"))
parse_body garbage = none

abbrev host : Host fixed
host = record {
  Bytes = Body;
  ed25519 = λ body signature key. signature == "ok";
  parse = parse_body;
  is_word = λ c. true;
}

abbrev request : Body → String → Request fixed host
request body signature = record {
  clock = record { monotonic_ns = 5; wall_ns = 5; utc = 5 };
  body = body;
  signature = signature;
  public_key = "key";
}

abbrev start : Gateway fixed
start = startup fixed (empty fixed)

accepts_once : (handle fixed host start (request first_body "ok")).0 ≡ accepted "b0" 3 []
unfolding ingest_signals has_batch update overflowed
accepts_once = refl

conflicts_twice :
    (handle fixed host
      (handle fixed host start (request first_body "ok")).1
      (request first_body "ok")).0
    ≡ conflict "b0"
unfolding ingest_signals has_batch update save_batch overflowed
conflicts_twice = refl

forged_body : (handle fixed host start (request first_body "forged")).0 ≡ unauthorized
unfolding ingest_signals
forged_body = refl

unparsed_body : (handle fixed host start (request garbage "ok")).0 ≡ unprocessable
unfolding ingest_signals
unparsed_body = refl

serve-Distinct_example : Distinct (
    batch_ids fixed (
      serve fixed host start
        (request first_body "ok" ∷ request first_body "ok" ∷ request fleet_body "ok" ∷ [])))
serve-Distinct_example =
    serve-Distinct fixed host start
      (request first_body "ok" ∷ request first_body "ok" ∷ request fleet_body "ok" ∷ []) tt

accepts-IsRefusal : ¬ IsRefusal fixed (handle fixed host start (request first_body "ok")).0
accepts-IsRefusal = λ r. subst (IsRefusal fixed) accepts_once r

replay_refused_example :
    let later =
      serve fixed host
        (handle fixed host start (request first_body "ok")).1
        (request second_body "ok" ∷ []) in
    IsRefusal fixed (handle fixed host later (request first_body "other")).0
    × ((handle fixed host later (request first_body "other")).1 ≡ later)
replay_refused_example =
    replay_refused fixed host start (request first_body "ok") (request first_body "other")
      (request second_body "ok" ∷ []) accepts-IsRefusal refl

fleet_batch_isolated_example :
    SameButFleet fixed "fleet" start (handle fixed host start (request fleet_body "ok")).1
fleet_batch_isolated_example =
    fleet_batch_isolated fixed host start (request fleet_body "ok")
      (batch "b2" "bob" (some "fleet")) "fleet" refl refl

abbrev with_private_row : Repository fixed
with_private_row = save_batch fixed (empty fixed) (batch "b2" "bob" (some "fleet")) 7

abbrev own : Triple
own = ("gpt", "v1.0.0", "json_success_rate")

-- The row of a private fleet warms the shared detector.
warmed_by_fleet :
    tracked_streams fixed (bootstrap_detector fixed (gateway_detector fixed) with_private_row).1
    ≡ ("gpt", "v1.0.0", "json_success_rate") ∷ []
unfolding bootstrap_detector warm_tuples warm_signals warm_signal warm_value get_all_model_tuples
    get_recent_signals save_batch update tracked_streams
warmed_by_fleet = refl

warmed_by_one : (bootstrap_detector fixed (gateway_detector fixed) with_private_row).0 ≡ some 1
unfolding bootstrap_detector warm_tuples warm_signals warm_signal warm_value get_all_model_tuples
    get_recent_signals save_batch update overflowed
warmed_by_one = refl

bootstrap_detector-history_example :
    (tuples : List String) × (Distinct tuples
      × ((m : String)
          → contains m tuples ≡ contains m (map (λ s. s.model_tuple) with_private_row.signals))
      × (1 ≡ length (history fixed with_private_row tuples))
      × (state_of fixed (bootstrap_detector fixed (gateway_detector fixed) with_private_row).1 own
          ≡ (feed fixed
              (state_of fixed (gateway_detector fixed) own)
              (keep (λ o. stream fixed o == own) (history fixed with_private_row tuples))).1))
bootstrap_detector-history_example =
    bootstrap_detector-history fixed (gateway_detector fixed) with_private_row own 1 warmed_by_one

handle-Backed_example : Backed fixed 3 (handle fixed host start (request first_body "ok")).1
handle-Backed_example =
    handle-Backed fixed 3 host start (request first_body "ok")
      (record { floor_kept = refl; reached = tt })

of_alice :
    (id : String) (b : Batch fixed)
    → some (batch id "alice" none) ≡ some b
    → contains b.client_id ("alice" ∷ "bob" ∷ []) ≡ true
of_alice id b p = let own : b.client_id ≡ "alice" = cc p in rw own

serve_below_floor_example :
    (serve fixed host start
      (request first_body "ok" ∷ request second_body "ok" ∷ [])).repo.public_alerts
    ≡ []
serve_below_floor_example =
    serve_below_floor fixed host (empty fixed) ("alice" ∷ "bob" ∷ [])
      (request first_body "ok" ∷ request second_body "ok" ∷ []) (omega arith)
      (λ b v p own. of_alice "b0" b p, (λ b v p own. of_alice "b1" b p, tt))

abbrev warmed : Gateway fixed
warmed = record (startup fixed with_private_row) {
  detector = (bootstrap_detector fixed (gateway_detector fixed) with_private_row).1;
}

starts_warmed : started fixed with_private_row ≡ some warmed
starts_warmed =
    ap
      (λ o.
        start_with fixed with_private_row
          (o, (bootstrap_detector fixed (gateway_detector fixed) with_private_row).1))
      warmed_by_one

weather_below_floor_example :
    published_status fixed (
      compute_model_weather fixed
        (serve fixed host warmed (request first_body "ok" ∷ request second_body "ok" ∷ [])).repo
        "gpt"
        9)
    ≢ some drifting
unfolding save_batch
weather_below_floor_example =
    weather_below_floor fixed host with_private_row ("alice" ∷ "bob" ∷ [])
      (request first_body "ok" ∷ request second_body "ok" ∷ []) "gpt" 9 warmed (omega arith)
      (λ b v p own. of_alice "b0" b p, (λ b v p own. of_alice "b1" b p, tt)) refl starts_warmed

public_batch_isolated_example :
    SameFleets fixed start (handle fixed host start (request second_body "ok")).1
public_batch_isolated_example =
    public_batch_isolated fixed host start (request second_body "ok") (batch "b1" "alice" none) refl
      refl
