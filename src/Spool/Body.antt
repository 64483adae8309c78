-- ===== src/Spool/Body.antt =====
-- probe/spool.py `_validate_body` and `_check_headers`, with `SignalBatch` of probe/privacy.py.
use seismograph.Prelude.{
  ℕ, String, Bool, true, false, Option, none, some, List, [], ◌∷◌, length, both, negate,
  if◌then◌else◌, ◌==◌, nat_eq, string_eq,
}
use seismograph.Dict.{Dict, get, put, or_default}
use seismograph.Dict.Keys.{contains, keys}
use seismograph.Schema.{codes, every, is_hex, allowed_metric_keys}
use seismograph.Spool.{Host, Result, ok, value_error, other_error}

-- The parameters of the `SignalBatch` constructor that have no default, and all of them.
abbrev required_fields : List String
required_fields =
    "batch_id" ∷ "client_id" ∷ "window_start" ∷ "window_end" ∷ "model_tuple" ∷ "suite_version"
    ∷ "metrics" ∷ "canary_hashes" ∷ "result_count" ∷ []

-- Every name of the first list is in the second.
abbrev covers : List String → List String → Bool
covers [] ys = true
covers (x ∷ xs) ys = both (contains x ys) (covers xs ys)

-- A text of hex digits.
abbrev pub hex_of : ℕ → String → Bool
hex_of n s = let cs = codes s in both (length cs == n) (every is_hex cs)

pub record Headers : Type 0 where
  pub x_signature : String
  pub x_public_key : String

-- `{k.lower(): v for k, v in headers.items()}`
abbrev pub lowered :
    (String → String) → Dict String String → Dict String String → Dict String String
lowered lower acc [] = acc
lowered lower acc ((k, v) ∷ headers) = lowered lower (put (lower k) v acc) headers

-- The two headers of the right length and alphabet.
unfoldable pub sized : String → String → Result Headers
sized sig pub_key =
    if both (hex_of 128 sig) (hex_of 64 pub_key)
    then ok (record { x_signature = sig; x_public_key = pub_key })
    else value_error

unfoldable pub check_headers : (String → String) → Dict String String → Result Headers
unfolding sized
check_headers lower headers =
    let low = lowered lower [] headers in
    sized (or_default "" (get "x-signature" low)) (or_default "" (get "x-public-key" low))

module _ (host : Host) where
  abbrev pub Object : Type 0
  Object = Dict String host.Value

  -- `uuid.UUID(v)` under `except ValueError`, and the TypeError for None that the caller expects;
  -- any other value has no `replace`.
  unfoldable pub check_uuid : Option host.Value → Result Unit
  check_uuid none = value_error
  check_uuid (some v) = elim (host.as_text v) [
    | some s ↦ if host.is_uuid s then ok tt else value_error
    | none ↦ if host.is_null v then value_error else other_error
  ]

  abbrev known_metrics : List host.Value → Bool
  known_metrics [] = true
  known_metrics (v ∷ vs) =
      both (elim (host.as_text v) [ none ↦ false | some k ↦ contains k allowed_metric_keys ])
        (known_metrics vs)

  -- `result_count >= 1` and no unknown metric
  abbrev counted : Option host.Value → Option host.Value → Bool
  counted (some n) (some metrics) =
      both (negate (host.below_one n))
        (elim (host.members metrics) [ none ↦ false | some vs ↦ known_metrics vs ])
  counted _ _ = false

  abbrev hash_values : Object → Bool
  hash_values [] = true
  hash_values ((_, v) ∷ rest) =
      both (elim (host.as_text v) [ none ↦ false | some h ↦ hex_of 64 h ]) (hash_values rest)

  -- `isinstance(hashes, dict)` and 64 lowercase hex digits each
  abbrev hashes_ok : Option host.Value → Bool
  hashes_ok none = false
  hashes_ok (some v) = elim (host.as_object v) [ none ↦ false | some o ↦ hash_values o ]

  abbrev pub text_at : String → Object → String
  text_at k o = elim (get k o) [ none ↦ "" | some v ↦ or_default "" (host.as_text v) ]

  -- What is left to check once both UUIDs are read.
  abbrev finish : Object → Result String
  finish o =
      if both (counted (get "result_count" o) (get "metrics" o)) (hashes_ok (get "canary_hashes" o))
      then ok (text_at "batch_id" o)
      else value_error

  abbrev then_uuid : Result Unit → Result String → Result String
  then_uuid (ok _) r = r
  then_uuid value_error r = value_error
  then_uuid other_error r = other_error

  -- `SignalBatch(**payload)` and the check of its hashes; the batch_id on success.
  unfoldable pub signal_batch : Object → Result String
  unfolding check_uuid
  signal_batch o =
      if both (covers required_fields (keys o)) (covers (keys o) ("fleet_id" ∷ required_fields))
      then then_uuid (check_uuid (get "batch_id" o))
          (then_uuid (check_uuid (get "client_id" o)) (finish o))
      else value_error

  unfoldable pub validate_object : host.Bytes → Option Object → Result String
  unfolding signal_batch
  validate_object body none = value_error
  validate_object body (some o) =
      if host.same_bytes (host.canonical_json o) body then signal_batch o else value_error

  unfoldable pub validate_body : host.Bytes → Result String
  unfolding validate_object
  validate_body body = elim (host.loads body) [
    | none ↦ value_error
    | some v ↦ validate_object body (host.as_object v)
  ]
