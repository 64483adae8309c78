-- ===== src/Redis/Examples.antt =====
-- Runs of engine/scorer_redis.py on a server in memory, and its theorems at concrete inputs.
use seismograph.Prelude.{ℕ, ◌≡◌, refl, String, true, none, some, List, [], ◌∷◌, arith, triple_eq}
use seismograph.Scorer.{ChangePointResult, init, promote_to_public_alert, ingest, stamp}
use seismograph.Scorer.History.{Call, observes, ingests, promotes, run}
use seismograph.Quorum.{required_quorum}
use seismograph.Redis.{
  ingest_redis, zadd_orgs, observe_redis, agree_key, obs_key, init_redis, promote_redis, stamp_ms,
}
use seismograph.Redis.History.{run_redis}
use seismograph.Redis.Memory.{memory, memory_laws, no_sets}
use seismograph.Redis.Agrees.{promote_redis-promote}
use seismograph.Redis.Once.{promote_redis_once}

abbrev candidate : List String → ℕ → ChangePointResult ℕ
candidate orgs ts = record {
  model_tuple = "gpt";
  change_detected = true;
  score = 6;
  threshold = 5;
  contributing_orgs = orgs;
  metric_name = "json";
  timestamp_ns = ts;
  suite_version = "v1";
}

abbrev calls : List (ℕ × Call ℕ)
calls =
    (0, ingests (candidate ("a" ∷ "b" ∷ []) 100000000))
    ∷ (90000000, promotes "gpt" "json" "v1")
    ∷ (0, observes "gpt" "length" "z" (some 7) "v1")
    ∷ (0, ingests (candidate ("c" ∷ []) 110000000))
    ∷ []

-- A late event of org a, behind one that the scorers know.
abbrev late : List (ℕ × Call ℕ)
late =
    (0, ingests (candidate ("a" ∷ "b" ∷ "c" ∷ []) 100000000))
    ∷ (0, ingests (candidate ("a" ∷ []) 40000000))
    ∷ []

in_order_redis :
    (promote_redis memory
      (init_redis none 50000000 1 3)
      "gpt"
      "json"
      120000000
      "v1"
      (run_redis memory (init_redis none 50000000 1 3) no_sets calls)).0
    ≡ some 3
unfolding init_redis run_redis promote_redis agree_key obs_key stamp_ms ingest_redis zadd_orgs
    observe_redis
in_order_redis = refl

-- ZADD puts the late event in the place of the newer one, so that the org is stale; the in-process
-- scorer keeps the newer one.
late_redis :
    (promote_redis memory
      (init_redis none 50000000 1 3)
      "gpt"
      "json"
      120000000
      "v1"
      (run_redis memory (init_redis none 50000000 1 3) no_sets late)).0
    ≡ none
unfolding init_redis run_redis promote_redis agree_key obs_key stamp_ms ingest_redis zadd_orgs
    observe_redis
late_redis = refl

late_scorer :
    (promote_to_public_alert (run (init none 50000000 1 3) late) "gpt" "json" 120000000 "v1").0
    ≡ some 3
unfolding init run promote_to_public_alert stamp required_quorum ingest
late_scorer = refl

-- Two streams, one key.
shared_key : agree_key "llama3:8b" "json" "v1" ≡ agree_key "llama3" "json" "8b:v1"
unfolding agree_key
shared_key = refl

promote_redis-promote_example :
    (promote_redis memory
      (init_redis none 50000000 1 3)
      "gpt"
      "json"
      120000000
      "v1"
      (run_redis memory (init_redis none 50000000 1 3) no_sets calls)).0
    ≡ (promote_to_public_alert (run (init none 50000000 1 3) calls) "gpt" "json" 120000000 "v1").0
unfolding stamp agree_key obs_key
promote_redis-promote_example =
    promote_redis-promote memory memory_laws none 50000000 1 3 "gpt" "json" "v1" 120000000 calls
      no_sets refl refl (λ m. refl, λ m. refl)
      ((refl, omega arith), ((refl, omega arith), ((refl, omega arith), omega arith)))
      (λ ne. absurd cc, (λ ne. absurd cc, (λ ne. (refl, refl), (λ ne. absurd cc, tt))))

promote_redis_once_example :
    (promote_redis memory
      (init_redis none 50000000 1 3)
      "gpt"
      "json"
      121000000
      "v1"
      (promote_redis memory
        (init_redis none 50000000 1 3)
        "gpt"
        "json"
        120000000
        "v1"
        (run_redis memory (init_redis none 50000000 1 3) no_sets calls)).1).0
    ≡ none
promote_redis_once_example =
    promote_redis_once memory memory_laws (init_redis none 50000000 1 3)
      (init_redis none 50000000 1 3) "gpt" "json" "v1" 120000000 121000000 3
      (run_redis memory (init_redis none 50000000 1 3) no_sets calls) in_order_redis
