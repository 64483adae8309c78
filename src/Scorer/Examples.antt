-- ===== src/Scorer/Examples.antt =====
-- Runs of the agreement scorer of engine/correlation.py, and its theorems at concrete inputs.
use seismograph.Prelude.{
  ℕ, ◌*◌, ◌≤◌, ◌<◌, ◌≡◌, refl, ◌↔◌, inl, String, Triple, true, none, some, List, [], ◌∷◌, length,
  arith, if◌then◌else◌, triple_eq, ◌==◌,
}
use seismograph.Quorum.{required_quorum}
use seismograph.Dict.{get}
use seismograph.Scorer.{
  Scorer, ChangePointResult, init, observe, ingest, promote_to_public_alert, live_orgs,
}
use seismograph.Scorer.Gate.{agreeing, population, promote_iff_quorum, promote_effect}
use seismograph.Scorer.Expiry.{promote_expired, promote_reachable}
use seismograph.Scorer.History.{Call, observes, ingests, clears, run}
use seismograph.Scorer.Isolation.{promote-run_others}
use seismograph.Scorer.Sybil.{promote_blocked}

-- A candidate on the stream (gpt, v1, json) at time 100.
abbrev candidate : List String → ChangePointResult ℕ
candidate orgs = record {
  model_tuple = "gpt";
  change_detected = true;
  score = 6;
  threshold = 5;
  contributing_orgs = orgs;
  metric_name = "json";
  timestamp_ns = 100;
  suite_version = "v1";
}

-- Three orgs agree, and a fourth one only watches.
abbrev agreed : Scorer
agreed = record {
  floor = 3;
  ttl_ns = 50;
  frac_num = 1;
  frac_den = 3;
  agree = (("gpt", "v1", "json"), ("a", 100) ∷ ("b", 100) ∷ ("c", 100) ∷ []) ∷ [];
  observers = (("gpt", "v1", "json"), ("a", 100) ∷ ("b", 100) ∷ ("c", 100) ∷ ("d", 100) ∷ []) ∷ [];
}

abbrev history : List (ℕ × Call ℕ)
history =
    (100, ingests (candidate ("a" ∷ "b" ∷ [])))
    ∷ (100, ingests (candidate ("c" ∷ [])))
    ∷ (100, observes "gpt" "json" "d" none "v1")
    ∷ []

history-agreed : run (init none 50 1 3) history ≡ agreed
unfolding run init ingest observe
history-agreed = refl

promotes_three : (promote_to_public_alert agreed "gpt" "json" 120 "v1").0 ≡ some 3
unfolding promote_to_public_alert live_orgs required_quorum
promotes_three = refl

promote_iff_quorum_example : ((promote_to_public_alert agreed "gpt" "json" 120 "v1").0 ≡ some 3) ↔ (
    (3 ≡ length (agreeing agreed ("gpt", "v1", "json") 120))
    × ((0 < 3) × (3 ≤ 3) × (1 * population agreed ("gpt", "v1", "json") 120 ≤ 3 * 3)))
promote_iff_quorum_example = promote_iff_quorum agreed "gpt" "json" 120 "v1" 3 (omega arith)

promote_effect_example :
    ((promote_to_public_alert agreed "gpt" "json" 120 "v1").0 ≡ none
      → (promote_to_public_alert agreed "gpt" "json" 120 "v1").1 ≡ agreed)
    × ((c : ℕ)
        → (promote_to_public_alert agreed "gpt" "json" 120 "v1").0 ≡ some c
        → (j : Triple)
        → (get j (promote_to_public_alert agreed "gpt" "json" 120 "v1").1.agree
            ≡ (if ("gpt", "v1", "json") == j then none else get j agreed.agree))
          × ((promote_to_public_alert agreed "gpt" "json" 120 "v1").1.observers ≡ agreed.observers))
promote_effect_example = promote_effect agreed "gpt" "json" 120 "v1"

promote_expired_example : (promote_to_public_alert agreed "gpt" "json" 151 "v1").0 ≡ none
promote_expired_example = promote_expired agreed "gpt" "json" 151 "v1" (omega arith)

promote_reachable_example :
    (promote_to_public_alert agreed "gpt" "json" 120 "v1").0
    ≡ some (length (agreeing agreed ("gpt", "v1", "json") 120))
unfolding live_orgs
promote_reachable_example =
    promote_reachable agreed "gpt" "json" 120 "v1" refl refl refl (omega arith) (inl (omega arith))

promote-run_others_example :
    (promote_to_public_alert
      (run agreed ((110, clears "gpt" "json" "v2") ∷ (111, ingests (candidate ("e" ∷ []))) ∷ []))
      "gpt"
      "length"
      120
      "v1").0
    ≡ (promote_to_public_alert agreed "gpt" "length" 120 "v1").0
promote-run_others_example =
    promote-run_others "gpt" "length" "v1" agreed 120
      ((110, clears "gpt" "json" "v2") ∷ (111, ingests (candidate ("e" ∷ []))) ∷ [])
      (refl, (refl, tt))

-- Two orgs below a floor of three, whatever they send.
promote_blocked_example :
    (promote_to_public_alert
      (run
        (init none 50 1 3)
        ((100, ingests (candidate ("a" ∷ []))) ∷ (101, ingests (candidate ("b" ∷ "a" ∷ []))) ∷ []))
      "gpt"
      "json"
      120
      "v1").0
    ≡ none
promote_blocked_example =
    promote_blocked "gpt" "json" "v1" none 50 1 3 120 ("a" ∷ "b" ∷ [])
      ((100, ingests (candidate ("a" ∷ []))) ∷ (101, ingests (candidate ("b" ∷ "a" ∷ []))) ∷ [])
      (λ p q. (refl, tt), (λ p q. (refl, (refl, tt)), tt)) (omega arith)
