-- ===== src/Aggregator/Flush.antt =====
-- probe/privacy.py: `Aggregator.flush` and the checks of `SignalBatch`.
use seismograph.Prelude.{
  String, Bool, true, Option, none, some, List, [], ◌∷◌, leb, length, both, if◌then◌else◌, ◌==◌,
  string_eq, nat_eq,
}
use seismograph.Dict.{get, remove, or_default}
use seismograph.Dict.Keys.{keys, contains}
use seismograph.Float.{Float}
use seismograph.Schema.{allowed_metric_keys}
use seismograph.Aggregator.{
  CanaryResult, Noise, SignalBatch, Aggregator, earliest, latest, mixed, hashes, all_metrics,
}

-- Every key is one of the allowlist.
abbrev pub known_keys : List String → Bool
known_keys [] = true
known_keys (k ∷ ks) = both (contains k allowed_metric_keys) (known_keys ks)

module _ (fl : Float) (noise : Noise fl) (is_uuid : String → Bool) where
  -- `SignalBatch.__post_init__`: whether it raises nothing
  unfoldable pub post_init : SignalBatch fl → Bool
  post_init b =
      both (both (is_uuid b.batch_id) (is_uuid b.client_id))
        (both (leb 1 b.result_count) (known_keys (keys b.metrics)))

  -- The batch of the results of one model and one version, which begin with `r`.
  unfoldable pub batch_of :
      Aggregator fl noise
      → String
      → Option String
      → CanaryResult
      → List CanaryResult
      → SignalBatch fl × noise.State
  unfolding all_metrics
  batch_of a model_tuple fleet_id r rs =
      let start = earliest r.timestamp rs in
      let end = latest r.timestamp rs in
      let (metrics, after) = all_metrics fl noise (r ∷ rs) a.rng in
      let (batch_id, last) = noise.uuid4 after in
      (
        record {
          batch_id = batch_id;
          client_id = a.client_id;
          window_start = start;
          window_end = if start == end then noise.after_microsecond start else end;
          model_tuple = model_tuple;
          suite_version = r.suite_version;
          metrics = metrics;
          canary_hashes = hashes [] (r ∷ rs);
          result_count = length (r ∷ rs);
          fleet_id = fleet_id;
        },
        last,
      )

  -- `flush` on the staged results; none is a ValueError
  unfoldable pub flush_results :
      Aggregator fl noise
      → String
      → Option String
      → List CanaryResult
      → Option (SignalBatch fl) × Aggregator fl noise
  unfolding batch_of post_init
  flush_results a model_tuple fleet_id [] = (none, a)
  flush_results a model_tuple fleet_id (r ∷ rs) =
      if mixed r.suite_version rs
      then (none, a)
      else (let (batch, last) = batch_of a model_tuple fleet_id r rs in
          let drawn = record a { rng = last } in
          if post_init batch
          then (some batch, record drawn { pending = remove model_tuple a.pending })
          else (none, drawn))

  unfoldable pub flush :
      Aggregator fl noise → String → Option String → Option (SignalBatch fl) × Aggregator fl noise
  unfolding flush_results
  flush a model_tuple fleet_id =
      flush_results a model_tuple fleet_id (or_default [] (get model_tuple a.pending))
