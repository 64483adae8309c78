-- ===== src/Schema.antt =====
-- gateway/schema.py: `InboundSignalBatch`, the wire format of the gateway, and its validators.
-- Pydantic's parsing of the JSON fields is a parameter of the gateway; the checks that the class
-- adds to it are here. A text is matched by its code points.
pub mod Hashes
mod Examples
use Prim.Native.Char.{code}
use Prim.Native.String
use seismograph.Prelude.{
  ℕ, zero, suc, String, Bool, true, false, Option, none, some, List, [], ◌∷◌, leb, ltb, length,
  both, either, negate, if◌then◌else◌, ◌==◌, nat_eq, string_eq, map,
}
use seismograph.Dict.{Dict}
use seismograph.Dict.Keys.{contains, keys}
use seismograph.Float.{Float}

-- A datetime: microseconds since the epoch (of its own clock if naive), and whether it has a zone.
pub record Datetime : Type 0 where
  pub micros : ℕ
  pub aware : Bool

-- `a >= b`; none is the TypeError between a naive and an aware datetime
abbrev pub at_least : Datetime → Datetime → Option Bool
at_least a b = elim a.aware [
  | true ↦ if b.aware then some (leb b.micros a.micros) else none
  | false ↦ if b.aware then none else some (leb b.micros a.micros)
]

pub record Batch (fl : Float) : Type 0 where
  pub batch_id : String
  pub client_id : String
  pub window_start : Datetime
  pub window_end : Datetime
  pub model_tuple : String
  pub suite_version : String
  pub metrics : Dict String fl.Value
  pub canary_hashes : Dict String String
  pub result_count : ℕ
  pub fleet_id : Option String

-- _ALLOWED_METRIC_KEYS
abbrev pub allowed_metric_keys : List String
allowed_metric_keys =
    "avg_output_length" ∷ "json_success_rate" ∷ "result_count" ∷ "tool_call_validity_rate"
    ∷ "avg_output_tokens" ∷ "avg_reasoning_tokens" ∷ []

abbrev pub codes : String → List ℕ
codes String.[] = []
codes (String.◌∷◌ c s) = code c ∷ codes s

abbrev pub every : (ℕ → Bool) → List ℕ → Bool
every p [] = true
every p (c ∷ cs) = both (p c) (every p cs)

-- `$` matches at the end of a text and before a newline that ends it.
abbrev pub chomp : List ℕ → List ℕ
chomp [] = []
chomp (c ∷ []) = if c == b'\n' then [] else c ∷ []
chomp (c ∷ d ∷ cs) = c ∷ chomp (d ∷ cs)

-- [0-9a-f]
abbrev pub is_hex : ℕ → Bool
is_hex c = either (both (leb b'0' c) (leb c b'9')) (both (leb b'a' c) (leb c b'f'))

-- `^[0-9a-f]{64}$`
unfoldable pub val_pat : List ℕ → Bool
val_pat cs = let line = chomp cs in both (length line == 64) (every is_hex line)

-- `^[\w.\-]+$`, where `\w` is a parameter
unfoldable pub key_pat : (ℕ → Bool) → List ℕ → Bool
key_pat is_word cs =
    let line = chomp cs in
    both (ltb 0 (length line))
      (every (λ c. either (is_word c) (either (c == b'.') (c == b'-'))) line)

unfoldable pub check_canary_hash_format : (ℕ → Bool) → Dict String String → Bool
unfolding val_pat key_pat
check_canary_hash_format is_word [] = true
check_canary_hash_format is_word ((key, val) ∷ hashes) =
    both (key_pat is_word (codes key))
      (both (val_pat (codes val)) (check_canary_hash_format is_word hashes))

-- No key outside the allow-list.
unfoldable pub check_metrics_keys : List String → Bool
check_metrics_keys [] = true
check_metrics_keys (k ∷ ks) = both (contains k allowed_metric_keys) (check_metrics_keys ks)

-- What `model_validate_json` does with parsed fields: a batch, a ValidationError, or another
-- exception.
pub data Validation : Type 0 where
  valid invalid raised : Validation

module _ (fl : Float) where
  -- `Field(min_length=1)` and `Field(ge=1)`
  abbrev pub fields_ok : Batch fl → Bool
  fields_ok b =
      both (negate (b.model_tuple == ""))
        (both (negate (b.suite_version == "")) (leb 1 b.result_count))

  -- The validators that run after `check_window_order`.
  abbrev pub checks_ok : (ℕ → Bool) → Batch fl → Bool
  checks_ok is_word b =
      both (check_metrics_keys (keys b.metrics)) (check_canary_hash_format is_word b.canary_hashes)

  unfoldable pub validate : (ℕ → Bool) → Batch fl → Validation
  unfolding check_metrics_keys check_canary_hash_format
  validate is_word b =
      if fields_ok b
      then elim (at_least b.window_start b.window_end) [
        | none ↦ raised
        | some true ↦ invalid
        | some false ↦ if checks_ok is_word b then valid else invalid
      ]
      else invalid
