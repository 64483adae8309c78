-- ===== src/Aggregator.antt =====
-- probe/privacy.py: `Aggregator`, which stages the results of the canaries and turns those of one
-- model into a signal batch under Laplace noise, with `SignalBatch` and the sensitivities. Drawing
-- random numbers, the mean of `statistics` and one microsecond more on an ISO time are parameters.
pub mod Flush
pub mod Staged
mod Examples
use Prim.Native.String.{compare as compare_text}
use Prim.Native.Nat.{Ordering}
use seismograph.Prelude.{
  ℕ, ◌+◌, String, Bool, true, false, Option, none, some, List, [], ◌∷◌, map, ltb, length, keep, min,
  both, either, negate, if◌then◌else◌, ◌==◌, string_eq, nat_eq,
}
use mathlib.Core.List.{◌++◌}
use seismograph.Prelude.Int.{ℤ, pos, pos_part}
use seismograph.Dict.{Dict, get, put, remove, or_default}
use seismograph.Dict.Keys.{keys}
use seismograph.Float.{Float, maximum, minimum}

-- `CanaryResult` of probe/canary.py: the fields that a batch is made of
pub record CanaryResult : Type 0 where
  pub timestamp : String
  pub model_tuple : String
  pub suite_version : String
  pub prompt_id : String
  pub response_hash : String
  pub output_length : ℤ
  pub json_valid : Bool
  pub tool_call_valid : Option Bool
  pub output_tokens : Option ℤ
  pub reasoning_tokens : Option ℤ

pub record Noise (fl : Float) : Type 1 where
  pub State : Type 0
  pub expovariate : fl.Value → State → fl.Value × State
  pub uuid4 : State → String × State
  pub mean : List fl.Value → fl.Value
  pub after_microsecond : String → String

-- MAX_OUTPUT_LENGTH, MAX_TOKEN_COUNT
abbrev pub max_output_length : ℕ
max_output_length = 320

abbrev pub max_token_count : ℕ
max_token_count = 8192

-- _METRIC_SENSITIVITY
abbrev pub metric_sensitivities : Dict String ℕ
metric_sensitivities =
    ("avg_output_length", 320)
    ∷ ("json_success_rate", 1)
    ∷ ("tool_call_validity_rate", 1)
    ∷ ("avg_output_tokens", 8192)
    ∷ ("avg_reasoning_tokens", 8192)
    ∷ []

pub record SignalBatch (fl : Float) : Type 0 where
  pub batch_id : String
  pub client_id : String
  pub window_start : String
  pub window_end : String
  pub model_tuple : String
  pub suite_version : String
  pub metrics : Dict String fl.Value
  pub canary_hashes : Dict String String
  pub result_count : ℕ
  pub fleet_id : Option String

-- `max(0, min(x, limit))`
abbrev pub clamp : ℕ → ℤ → ℕ
clamp limit x = min (pos_part x) limit

abbrev pub earlier : String → String → Bool
earlier a b = elim (compare_text a b) [ Ordering.lt ↦ true | _ ↦ false ]

-- `min` and `max` of the timestamps, after the first of them
abbrev pub earliest : String → List CanaryResult → String
earliest t [] = t
earliest t (r ∷ rs) = earliest (if earlier r.timestamp t then r.timestamp else t) rs

abbrev pub latest : String → List CanaryResult → String
latest t [] = t
latest t (r ∷ rs) = latest (if earlier t r.timestamp then r.timestamp else t) rs

-- `{r.suite_version for r in results}` has more than the version of the first
abbrev pub mixed : String → List CanaryResult → Bool
mixed version [] = false
mixed version (r ∷ rs) = either (negate (r.suite_version == version)) (mixed version rs)

abbrev pub hashes : Dict String String → List CanaryResult → Dict String String
hashes d [] = d
hashes d (r ∷ rs) = hashes (put r.prompt_id r.response_hash d) rs

abbrev pub is_some {ℓ} : {A : Type ℓ} → Option A → Bool
is_some none = false
is_some (some x) = true

abbrev pub any_some {ℓ} : {A : Type ℓ} → (CanaryResult → Option A) → List CanaryResult → Bool
any_some f [] = false
any_some f (r ∷ rs) = either (is_some (f r)) (any_some f rs)

module _ (fl : Float) where
  -- `_metric_sensitivity` of a batch that is not empty
  unfoldable pub metric_sensitivity : String → ℕ → fl.Value
  metric_sensitivity metric n =
      fl.div (fl.lit (or_default 0 (get metric metric_sensitivities)) 1) (fl.lit n 1)

  module _ (noise : Noise fl) where
    -- `_laplace_noise`
    unfoldable pub laplace_noise : fl.Value → noise.State → fl.Value × noise.State
    laplace_noise scale rng =
        let lam = fl.div (fl.lit 1 1) scale in
        let (a, after_a) = noise.expovariate lam rng in
        let (b, after_b) = noise.expovariate lam after_a in (fl.sub a b, after_b)

    -- A mean of `n` records with the noise of its metric; EPSILON is 2.
    unfoldable pub noised : String → ℕ → fl.Value → noise.State → fl.Value × noise.State
    unfolding laplace_noise metric_sensitivity
    noised metric n raw rng =
        let (x, after) = laplace_noise (fl.div (metric_sensitivity metric n) (fl.lit 2 1)) rng in
        (fl.add raw x, after)

    abbrev pub not_negative : fl.Value → fl.Value
    not_negative x = maximum fl (fl.lit 0 1) x

    abbrev pub unit : fl.Value → fl.Value
    unit x = maximum fl (fl.lit 0 1) (minimum fl (fl.lit 1 1) x)

    abbrev pub share : (CanaryResult → Bool) → List CanaryResult → fl.Value
    share p results = fl.div (fl.lit (length (keep p results)) 1) (fl.lit (length results) 1)

    abbrev pub tool_passed : CanaryResult → Bool
    tool_passed r = elim r.tool_call_valid [ none ↦ false | some b ↦ b ]

    -- The three metrics of every batch, and the noise they take.
    unfoldable pub base_metrics :
        List CanaryResult → noise.State → Dict String fl.Value × noise.State
    unfolding noised
    base_metrics results rng =
        let n = length results in
        let lengths = map (λ r. fl.lit (clamp max_output_length r.output_length) 1) results in
        let (avg, after_avg) = noised "avg_output_length" n (noise.mean lengths) rng in
        let (rate, after) =
          noised "json_success_rate" n (share (λ r. r.json_valid) results) after_avg in
        (
          ("avg_output_length", fl.round (not_negative avg) 4)
              ∷ ("json_success_rate", fl.round (unit rate) 4)
              ∷ ("result_count", fl.lit n 1)
              ∷ [],
          after,
        )

    -- With a tool canary in the batch, the rate of valid calls.
    unfoldable pub add_tool_rate :
        List CanaryResult → Dict String fl.Value × noise.State → Dict String fl.Value × noise.State
    unfolding noised
    add_tool_rate results (metrics, rng) =
        if any_some (λ r. r.tool_call_valid) results
        then (let (rate, after) =
              noised "tool_call_validity_rate" (length results) (share tool_passed results) rng in
            (put "tool_call_validity_rate" (fl.round (unit rate) 4) metrics, after))
        else (metrics, rng)

    -- One turn of the loop over the token counters.
    unfoldable pub add_tokens :
        String
        → (CanaryResult → Option ℤ)
        → List CanaryResult
        → Dict String fl.Value × noise.State
        → Dict String fl.Value × noise.State
    unfolding noised
    add_tokens key attr results (metrics, rng) =
        if any_some attr results
        then (let clamped =
              map (λ r. fl.lit (clamp max_token_count (or_default (pos 0) (attr r))) 1) results in
            let (tokens, after) = noised key (length results) (noise.mean clamped) rng in
            (put key (fl.round (not_negative tokens) 4) metrics, after))
        else (metrics, rng)

    unfoldable pub all_metrics :
        List CanaryResult → noise.State → Dict String fl.Value × noise.State
    unfolding base_metrics add_tool_rate add_tokens
    all_metrics results rng =
        add_tokens "avg_reasoning_tokens" (λ r. r.reasoning_tokens) results
          (add_tokens "avg_output_tokens" (λ r. r.output_tokens) results
            (add_tool_rate results (base_metrics results rng)))

    pub record Aggregator : Type 0 where
      pub client_id : String
      pub pending : Dict String (List CanaryResult)
      pub rng : noise.State

    unfoldable pub add_result : Aggregator → CanaryResult → Aggregator
    add_result a result =
        let staged = or_default [] (get result.model_tuple a.pending) in
        record a { pending = put result.model_tuple (staged ++ result ∷ []) a.pending }

    unfoldable pub clear_all : Aggregator → Aggregator
    clear_all a = record a { pending = [] }

    unfoldable pub pending_count : Aggregator → String → ℕ
    pending_count a model_tuple = length (or_default [] (get model_tuple a.pending))

    unfoldable pub model_tuples_pending : Aggregator → List String
    model_tuples_pending a = keys (keep (λ e. ltb 0 (length e.1)) a.pending)
