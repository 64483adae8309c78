-- ===== src/Aggregator/Examples.antt =====
-- A run of `Aggregator` of probe/privacy.py, and its theorem at a concrete input.
use seismograph.Prelude.{
  ℕ, ◌+◌, ◌≡◌, refl, String, true, none, some, [], ◌∷◌, if◌then◌else◌, ◌==◌, string_eq,
}
use seismograph.Prelude.Int.{pos}
use seismograph.Dict.{get, or_default}
use seismograph.Float.Fixed.{fixed}
use seismograph.Aggregator.{CanaryResult, Noise, SignalBatch, Aggregator, add_result}
use seismograph.Aggregator.Flush.{flush}
use seismograph.Aggregator.Staged.{Describes, OneVersion, flush-staged}

-- Every draw is one, and the identifiers count up.
abbrev noise : Noise fixed
noise = record {
  State = ℕ;
  expovariate = λ lam s. (fixed.lit 1 1, s + 1);
  uuid4 = λ s. ("batch", s + 1);
  mean = fixed.total;
  after_microsecond = λ s. s;
}

abbrev result : String → String → CanaryResult
result model version = record {
  timestamp = "2026-01-01";
  model_tuple = model;
  suite_version = version;
  prompt_id = "p1";
  response_hash = "h1";
  output_length = pos 900;
  json_valid = true;
  tool_call_valid = none;
  output_tokens = some (pos 5);
  reasoning_tokens = none;
}

abbrev empty : Aggregator fixed noise
empty = record { client_id = "client"; pending = []; rng = 0 }

abbrev staged : Aggregator fixed noise
staged = record {
  client_id = "client";
  pending =
      ("gpt", result "gpt" "v1" ∷ [])
      ∷ ("mixed", result "mixed" "v1" ∷ result "mixed" "v2" ∷ [])
      ∷ [];
  rng = 0;
}

add_result-staged :
    add_result fixed noise
      (add_result fixed noise
        (add_result fixed noise empty (result "gpt" "v1"))
        (result "mixed" "v1"))
      (result "mixed" "v2")
    ≡ staged
unfolding add_result
add_result-staged = refl

flush-staged_example :
    (let results = or_default [] (get "gpt" staged.pending) in
      ((OneVersion fixed noise (λ s. true) results → ⊥)
        → flush fixed noise (λ s. true) staged "gpt" none ≡ (none, staged))
      × (OneVersion fixed noise (λ s. true) results
          → (b : SignalBatch fixed) × ((flush fixed noise (λ s. true) staged "gpt" none).0 ≡ some b)
            × Describes fixed noise (λ s. true) staged "gpt" none results b
            × ((j : String)
                → get j (flush fixed noise (λ s. true) staged "gpt" none).1.pending
                  ≡ (if "gpt" == j then none else get j staged.pending))))
flush-staged_example = flush-staged fixed noise (λ s. true) staged "gpt" none (λ s. refl) refl
