-- ===== src/Compare.antt =====
-- probe/compare.py: the comparison of two models on a suite of prompts. Here: failures and their
-- classes, observations, and `Side`, which asks one model. A call of a model and a pause are
-- parameters that change a state of the world `W`; times are milliseconds.
pub mod Asking
pub mod Calls
pub mod Collected
pub mod Keeps
pub mod Runs
pub mod Stats
pub mod Verdict
pub mod Outcome
mod Examples
pub mod Suite
use seismograph.Prelude.{
  ℕ, zero, suc, ◌+◌, ◌*◌, ◌-◌, String, Bool, true, false, Option, none, some, List, [], ◌∷◌, leb,
  ltb, both, either, negate, if◌then◌else◌, ◌==◌, nat_eq, string_eq, take, length,
}
use seismograph.Dict.{or_default}
use seismograph.Schema.{codes}

-- `failure` of an observation
pub data Failure : Type 0 where
  not_attempted auth quota rate_limit bad_request provider_error timeout network : Failure

-- `ProviderError` of probe/providers.py, without its message
pub record ProviderError : Type 0 where
  pub status_code : Option ℕ
  pub error_code : Option String
  pub failure_kind : Option String

-- `CompletionResult` of probe/providers.py: the fields that a comparison reads
pub record CompletionResult : Type 0 where
  pub text : String
  pub output_tokens : Option ℕ
  pub reasoning_tokens : Option ℕ
  pub latency_ms : ℕ
  pub finish_reason : Option String
  pub returned_model : Option String

pub record SuiteItem : Type 0 where
  pub id : String
  pub user : String
  pub system : Option String
  pub expect_json : Bool

pub record Observation : Type 0 where
  pub failure : Option Failure
  pub text : String
  pub hash : Option String
  pub length : Option ℕ
  pub finish_reason : Option String
  pub empty : Option Bool
  pub json_valid : Option Bool
  pub refusal : Option Bool
  pub latency_ms : Option ℕ
  pub output_tokens : Option ℕ
  pub reasoning_tokens : Option ℕ
  pub returned_model : Option String

-- `Observation(failure=...)`, where the other fields have their defaults
abbrev pub failed : Failure → Observation
failed f = record {
  failure = some f;
  text = "";
  hash = none;
  length = none;
  finish_reason = none;
  empty = none;
  json_valid = none;
  refusal = none;
  latency_ms = none;
  output_tokens = none;
  reasoning_tokens = none;
  returned_model = none;
}

unfoldable pub valid : Observation → Bool
valid o = elim o.failure [ none ↦ true | some f ↦ false ]

-- One text begins with the other, or has it somewhere; texts are lists of code points.
abbrev pub begins : List ℕ → List ℕ → Bool
begins [] ys = true
begins (x ∷ xs) [] = false
begins (x ∷ xs) (y ∷ ys) = both (x == y) (begins xs ys)

abbrev pub has : List ℕ → List ℕ → Bool
has xs [] = begins xs []
has xs (y ∷ ys) = either (begins xs (y ∷ ys)) (has xs ys)

abbrev pub has_any : List String → List ℕ → Bool
has_any [] ys = false
has_any (x ∷ xs) ys = either (has (codes x) ys) (has_any xs ys)

-- QUOTA_CODE_HINTS
abbrev pub quota_code_hints : List String
quota_code_hints = "quota" ∷ "billing" ∷ "credit" ∷ "insufficient" ∷ []

-- `failure_kind` of an error that came without a status
unfoldable pub classify_kind : Option String → Failure
classify_kind none = network
classify_kind (some kind) =
    if kind == "timeout"
    then timeout
    else if either (kind == "bad_body") (kind == "bad_schema")
    then provider_error
    else network

module _ (lower : List ℕ → List ℕ) where
  -- The statuses from 500 on are the provider's own.
  unfoldable pub classify_status : ℕ → Option String → Failure
  classify_status status error_code =
      if either (status == 401) (status == 403)
      then auth
      else if status == 402
      then quota
      else if status == 429
      then (if has_any quota_code_hints (lower (codes (or_default "" error_code)))
          then quota
          else rate_limit)
      else if leb 500 status
      then provider_error
      else bad_request

  unfoldable pub classify : ProviderError → Failure
  unfolding classify_status classify_kind
  classify exc = elim exc.status_code [
    | some status ↦ classify_status status exc.error_code
    | none ↦ classify_kind exc.failure_kind
  ]

-- RETRYABLE and FATAL
abbrev pub is_retryable : Failure → Bool
is_retryable rate_limit = true
is_retryable provider_error = true
is_retryable _ = false

abbrev pub is_fatal : Failure → Bool
is_fatal auth = true
is_fatal quota = true
is_fatal _ = false

abbrev pub max_retries : ℕ
max_retries = 2

abbrev pub retry_base_ms : ℕ
retry_base_ms = 1000

pub data Reply : Type 0 where
  raised : ProviderError → Reply
  completed : CompletionResult → Reply

-- What the module calls: the pause, functions of Python on texts, and the functions of
-- probe/canary.py that hash an answer and parse it.
pub record Host (W : Type 0) : Type 0 where
  pub sleep : ℕ → W → W
  pub lower : List ℕ → List ℕ
  pub is_blank : String → Bool
  pub hash_output : String → String
  pub is_json_valid : String → Bool

abbrev pub is_400 : Option ℕ → Bool
is_400 none = false
is_400 (some status) = status == 400

-- TEMP_ZERO and TEMP_DEFAULT
abbrev pub temp_zero : String
temp_zero = "0"

abbrev pub temp_default : String
temp_default = "provider default"

pub record Side (W : Type 0) : Type 0 where
  pub label : String
  pub requested : String
  pub caller : SuiteItem → Bool → W → Reply × W
  pub delay_ms : ℕ
  pub send_temperature : Bool
  pub temperature : String
  pub fallback_tried : Bool
  pub fatal : Option Failure
  pub calls_made : ℕ

-- REFUSAL_PATTERNS
abbrev pub refusal_patterns : List String
refusal_patterns =
    "i can't help" ∷ "i cannot help" ∷ "i can't assist" ∷ "i cannot assist" ∷ "i can't provide"
    ∷ "i cannot provide" ∷ "i can't comply" ∷ "i cannot comply" ∷ "i won't be able"
    ∷ "i'm not able to" ∷ "i am not able to" ∷ "i'm unable to" ∷ "i am unable to"
    ∷ "i'm sorry, but i" ∷ "i am sorry, but i" ∷ "i must decline" ∷ "as an ai" ∷ []

-- `replace` of the curly apostrophe by the straight one
abbrev pub straighten : List ℕ → List ℕ
straighten [] = []
straighten (c ∷ cs) = (if c == 8217 then 39 else c) ∷ straighten cs

module _ {W : Type 0} (host : Host W) where
  unfoldable pub is_refusal : String → Bool
  is_refusal text = has_any refusal_patterns (straighten (host.lower (take 300 (codes text))))

  -- `observe` of probe/compare.py
  unfoldable pub observation : SuiteItem → CompletionResult → Observation
  unfolding is_refusal
  observation item res = record {
    failure = none;
    text = res.text;
    hash = some (host.hash_output res.text);
    length = some (length (codes res.text));
    finish_reason = res.finish_reason;
    empty = some (host.is_blank res.text);
    json_valid = if item.expect_json then some (host.is_json_valid res.text) else none;
    refusal = some (is_refusal res.text);
    latency_ms = some res.latency_ms;
    output_tokens = res.output_tokens;
    reasoning_tokens = res.reasoning_tokens;
    returned_model = res.returned_model;
  }
