-- ===== src/Aggregator/Staged.antt =====
-- What `Aggregator.flush` of probe/privacy.py makes of the staged results.
use seismograph.Prelude.{
  eq_iff, ◌≤◌, All, ◌≡◌, refl, ap, ◌∙◌, String, Bool, true, false, Option, none, some, List, [],
  ◌∷◌, length, arith, if◌then◌else◌, ◌==◌, string_eq, nat_eq, Bool-cases, inl, inr,
}
use seismograph.Dict.{Dict, get, put, remove, or_default, get-remove}
use seismograph.Dict.Keys.{keys, contains, Within, Within-put}
use seismograph.Float.{Float}
use seismograph.Schema.{allowed_metric_keys}
use seismograph.Aggregator.{
  ℤ, CanaryResult, Noise, SignalBatch, Aggregator, mixed, base_metrics, add_tool_rate, add_tokens,
  all_metrics, any_some,
}
use seismograph.Aggregator.Flush.{known_keys, post_init, batch_of, flush_results, flush}

module _ (fl : Float) (noise : Noise fl) (is_uuid : String → Bool) where
  -- Only the allowlist of the gateway, whatever the results.
  put-Within :
      (key : String) (v : fl.Value) (d : Dict String fl.Value)
      → contains key allowed_metric_keys ≡ true
      → Within (keys d) allowed_metric_keys
      → Within (keys (put key v d)) allowed_metric_keys
  put-Within key v d = Within-put key v d allowed_metric_keys

  if-Within :
      (b : Bool) (x y : Dict String fl.Value × noise.State)
      → Within (keys x.0) allowed_metric_keys
      → Within (keys y.0) allowed_metric_keys
      → Within (keys (if b then x else y).0) allowed_metric_keys
  if-Within true x y p q = p
  if-Within false x y p q = q

  tool_rate-Within :
      (results : List CanaryResult) (metrics : Dict String fl.Value) (rng : noise.State)
      → Within (keys metrics) allowed_metric_keys
      → Within (keys (add_tool_rate fl noise results (metrics, rng)).0) allowed_metric_keys
  unfolding add_tool_rate
  tool_rate-Within results metrics rng h =
      if-Within (any_some (λ r. r.tool_call_valid) results) _ (metrics, rng)
        (put-Within "tool_call_validity_rate" _ metrics refl h) h

  tokens-Within :
      (key : String) (attr : CanaryResult → Option ℤ) (results : List CanaryResult)
      (metrics : Dict String fl.Value) (rng : noise.State)
      → contains key allowed_metric_keys ≡ true
      → Within (keys metrics) allowed_metric_keys
      → Within (keys (add_tokens fl noise key attr results (metrics, rng)).0) allowed_metric_keys
  unfolding add_tokens
  tokens-Within key attr results metrics rng known h =
      if-Within (any_some attr results) _ (metrics, rng) (put-Within key _ metrics known h) h

  base-Within :
      (results : List CanaryResult) (rng : noise.State)
      → Within (keys (base_metrics fl noise results rng).0) allowed_metric_keys
  unfolding base_metrics
  base-Within results rng = (refl, (refl, (refl, tt)))

  all_metrics-Within :
      (results : List CanaryResult) (rng : noise.State)
      → Within (keys (all_metrics fl noise results rng).0) allowed_metric_keys
  unfolding all_metrics
  all_metrics-Within results rng =
      let base = base_metrics fl noise results rng in
      let tool = add_tool_rate fl noise results base in
      let output = add_tokens fl noise "avg_output_tokens" (λ r. r.output_tokens) results tool in
      tokens-Within "avg_reasoning_tokens" (λ r. r.reasoning_tokens) results output.0 output.1 refl
        (tokens-Within "avg_output_tokens" (λ r. r.output_tokens) results tool.0 tool.1 refl
          (tool_rate-Within results base.0 base.1 (base-Within results rng)))

  known_keys-Within : (ks : List String) → Within ks allowed_metric_keys → known_keys ks ≡ true
  known_keys-Within [] h = refl
  known_keys-Within (k ∷ ks) h = ground (arith, known_keys-Within ks h.1)

  batch-valid :
      (a : Aggregator fl noise) (model_tuple : String) (fleet_id : Option String) (r : CanaryResult)
      (rs : List CanaryResult)
      → ((s : noise.State) → is_uuid (noise.uuid4 s).0 ≡ true)
      → is_uuid a.client_id ≡ true
      → post_init fl noise is_uuid (batch_of fl noise is_uuid a model_tuple fleet_id r rs).0 ≡ true
  unfolding post_init batch_of
  batch-valid a model_tuple fleet_id r rs uuids client =
      let m = all_metrics fl noise (r ∷ rs) a.rng in
      let known = known_keys-Within (keys m.0) (all_metrics-Within (r ∷ rs) a.rng) in
      rw (uuids m.1, client, known) (ground arith)

  -- What a batch is of its results.
  pub record Describes (a : Aggregator fl noise) (model_tuple : String) (fleet_id : Option String)
      (results : List CanaryResult) (b : SignalBatch fl) : Type 0 where
    pub model : b.model_tuple ≡ model_tuple
    pub client : b.client_id ≡ a.client_id
    pub fleet : b.fleet_id ≡ fleet_id
    pub count : b.result_count ≡ length results
    pub known : Within (keys b.metrics) allowed_metric_keys

  -- There is a result, and all are of one version of the suite.
  abbrev pub OneVersion : List CanaryResult → Type 0
  OneVersion results =
      (1 ≤ length results) × ((v : String) × All (λ r. r.suite_version ≡ v) results)

  unmixed :
      (v : String) (rs : List CanaryResult) → mixed v rs ≡ false → All (λ r. r.suite_version ≡ v) rs
  unmixed v [] h = tt
  unmixed v (r ∷ rs) h = (ground (arith, eq_iff r.suite_version v), unmixed v rs (ground arith))

  unmixed_from :
      (v w : String) (rs : List CanaryResult)
      → v ≡ w
      → All (λ r. r.suite_version ≡ w) rs
      → mixed v rs ≡ false
  unmixed_from v w [] e h = refl
  unmixed_from v w (r ∷ rs) e h =
      ground (arith, eq_iff r.suite_version v, h.0, e, unmixed_from v w rs e h.1)

  flush_results-cases :
      (a : Aggregator fl noise) (model_tuple : String) (fleet_id : Option String)
      (results : List CanaryResult)
      → ((s : noise.State) → is_uuid (noise.uuid4 s).0 ≡ true)
      → is_uuid a.client_id ≡ true
      → ((OneVersion results → ⊥)
          → flush_results fl noise is_uuid a model_tuple fleet_id results ≡ (none, a))
        × (OneVersion results
            → (b : SignalBatch fl) × ((flush_results fl noise is_uuid a model_tuple fleet_id
                  results).0
                ≡ some b)
              × Describes a model_tuple fleet_id results b
              × ((flush_results fl noise is_uuid a model_tuple fleet_id results).1.pending
                  ≡ remove model_tuple a.pending))
  unfolding flush_results
  flush_results-cases a model_tuple fleet_id [] uuids client =
      (λ h. refl, λ h. absurd (omega (arith, h.0)))
  flush_results-cases a model_tuple fleet_id (r ∷ rs) uuids client =
      elim (Bool-cases (mixed r.suite_version rs)) [
        | inl many ↦
            rw (many, flush_results)
              (
                λ h. refl,
                λ (_, (v, (h, hs))). absurd (cc (unmixed_from r.suite_version v rs h hs, many)),
              )
        | inr one ↦
            let made = batch-valid a model_tuple fleet_id r rs uuids client in
            rw (one, flush_results, made)
              (
                λ h.
                    absurd
                      (h (omega arith, (r.suite_version, (refl, unmixed r.suite_version rs one)))),
                λ h. (
                  (batch_of fl noise is_uuid a model_tuple fleet_id r rs).0,
                  refl,
                  record {
                    model = refl;
                    client = refl;
                    fleet = refl;
                    count = refl;
                    known = all_metrics-Within (r ∷ rs) a.rng;
                  },
                  refl,
                ),
              )
      ]

  -- Where the identifiers are UUIDs, `flush` refuses a model exactly if nothing is staged for it or
  -- its results mix versions of the suite, and then changes nothing. Otherwise it gives a batch of
  -- the model, the client, the fleet and the number of results, with no metric outside the
  -- gateway's allowlist, and unstages the results of this model and of no other.
  pub flush-staged :
      (a : Aggregator fl noise) (model_tuple : String) (fleet_id : Option String)
      → ((s : noise.State) → is_uuid (noise.uuid4 s).0 ≡ true)
      → is_uuid a.client_id ≡ true
      → (let staged = or_default [] (get model_tuple a.pending) in
          ((OneVersion staged → ⊥) → flush fl noise is_uuid a model_tuple fleet_id ≡ (none, a))
          × (OneVersion staged
              → (b : SignalBatch fl) × ((flush fl noise is_uuid a model_tuple fleet_id).0 ≡ some b)
                × Describes a model_tuple fleet_id staged b
                × ((j : String)
                    → get j (flush fl noise is_uuid a model_tuple fleet_id).1.pending
                      ≡ (if model_tuple == j then none else get j a.pending))))
  unfolding flush
  flush-staged a model_tuple fleet_id uuids client =
      let c =
        flush_results-cases a model_tuple fleet_id (or_default [] (get model_tuple a.pending)) uuids
          client in
      (
        c.0,
        λ h.
            let (b, e, d, rest) = c.1 h in
            (b, e, d, λ j. ap (get j) rest ∙ get-remove model_tuple j a.pending),
      )
