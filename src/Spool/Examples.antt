-- ===== src/Spool/Examples.antt =====
-- Tests of the spool on a host whose bodies are named by their batch_id.
use seismograph.Spool.Store.{move}
use seismograph.Spool.Body.{sized}
use seismograph.Prelude.{
  List, zero, ◌≢◌, ◌≤◌, ℕ, suc, ◌+◌, ◌≡◌, refl, String, Bool, true, false, Option, none, some, [],
  ◌∷◌, ◌==◌, nat_eq, string_eq, length, arith,
}
use seismograph.Dict.{Dict, get, or_default}
use seismograph.Spool.{value_error, Host, ok, other_error}
use seismograph.Spool.Body.{Headers, validate_body, check_headers}
use seismograph.Spool.Store.{Name, name_eq, Fields, Spool, file_name, put_batch, load}
use seismograph.Spool.Sent.{logged, Lists, Sends, drain_in_order}
use seismograph.Spool.Waiting.{waiting}
use seismograph.Spool.Drain.{DrainReport, drain}
use seismograph.Spool.Scanned.{counted}
use seismograph.Spool.Account.{drain_accounts}
use seismograph.Spool.Cap.{put_capped}
use seismograph.Spool.Reload.{ReadsBack, put-load, entry_of}

data Bytes : Type 0 where
  signed : String → Bytes
  written : Fields → Bytes
  array junk : Bytes

data Value : Type 0 where
  null nothing numbers : Value
  text : String → Value
  number : ℕ → Value
  payload : String → Value
  stored : Fields → Value

abbrev loads : Bytes → Option Value
loads (signed id) = some (payload id)
loads (written f) = some (stored f)
loads array = some numbers
loads junk = none

abbrev as_text : Value → Option String
as_text (text s) = some s
as_text _ = none

abbrev as_object : Value → Option (Dict String Value)
as_object nothing = some []
as_object (payload id) = some (
    ("batch_id", text id)
    ∷ ("canary_hashes", nothing)
    ∷ ("client_id", text "c")
    ∷ ("metrics", nothing)
    ∷ ("model_tuple", text "gpt")
    ∷ ("result_count", number 3)
    ∷ ("suite_version", text "v1")
    ∷ ("window_end", text "2")
    ∷ ("window_start", text "1")
    ∷ [])
as_object (stored f) = some (
    ("batch_id", text f.batch_id)
    ∷ ("body_b64", text f.body_b64)
    ∷ ("created_at", number f.created_at)
    ∷ ("format", number f.format)
    ∷ ("x-public-key", text f.x_public_key)
    ∷ ("x-signature", text f.x_signature)
    ∷ [])
as_object _ = none

abbrev as_number : Value → Option ℕ
as_number (number n) = some n
as_number _ = none

abbrev name_in : Dict String Value → String
name_in o = or_default "" (as_text (or_default null (get "batch_id" o)))

abbrev same_bytes : Bytes → Bytes → Bool
same_bytes (signed a) (signed b) = a == b
same_bytes _ _ = false

abbrev encode : Bytes → String
encode (signed id) = id
encode _ = ""

abbrev host : Host
host = record {
  Bytes = Bytes;
  Value = Value;
  same_bytes = same_bytes;
  loads = loads;
  as_text = as_text;
  as_object = as_object;
  is_null = λ v. false;
  is_one = λ v. or_default 0 (as_number v) == 1;
  below_one = λ v. or_default 0 (as_number v) == 0;
  members = λ v. some [];
  canonical_json = λ o. signed (name_in o);
  is_uuid = λ s. true;
  b64encode = encode;
  b64decode = λ v. elim (as_text v) [ none ↦ none | some s ↦ some (signed s) ];
  as_time = λ v. elim (as_number v) [ none ↦ value_error | some n ↦ ok n ];
  lower = λ s. s;
}

abbrev host_reads_back : ReadsBack host written
host_reads_back = record {
  text = text;
  number = number;
  stored = stored;
  as_text-text = λ s. refl;
  is_one-number = refl;
  as_time-number = λ n. refl;
  loads-dumps = λ f. refl;
  as_object-stored = λ f. refl;
}

abbrev signature : String
signature =
    "aaaaaaaaaaaaaaaaaaaaaaaaaaaaaaaaaaaaaaaaaaaaaaaaaaaaaaaaaaaaaaaaaaaaaaaaaaaaaaaaaaaaaaaaaaaaaaaaaaaaaaaaaaaaaaaaaaaaaaaaaaaaaaaa"

abbrev public_key : String
public_key = "bbbbbbbbbbbbbbbbbbbbbbbbbbbbbbbbbbbbbbbbbbbbbbbbbbbbbbbbbbbbbbbb"

abbrev headers : Dict String String
headers = ("x-public-key", public_key) ∷ ("x-signature", signature) ∷ []

abbrev read : Headers
read = record { x_signature = signature; x_public_key = public_key }

abbrev spool : Spool host
spool = record { max_age = 1000; max_files = 2; files = []; quarantine = [] }

accepts_body : validate_body host (signed "b1") ≡ ok "b1"
unfolding validate_body
accepts_body = refl

accepts_headers : check_headers host.lower headers ≡ ok read
unfolding check_headers
accepts_headers = refl

-- A file whose JSON is an array crashes `_load` instead of being refused.
array_crashes : load host (file_name 5 "b1") array ≡ other_error
unfolding load
array_crashes = refl

put-load_example :
    (content : Bytes) × ((get
          (file_name 5 "b1")
          (put_batch host written spool (signed "b1") headers 5).1.files
        ≡ some content)
      × (load host (file_name 5 "b1") content
          ≡ ok (entry_of host written host_reads_back (signed "b1") 5 "b1" read)))
put-load_example =
    put-load host written host_reads_back spool (signed "b1") 5 headers "b1" read (omega arith) refl
      accepts_body accepts_headers

put_capped_example :
    ((n : Name)
      → (put_batch host written spool (signed "b1") headers 5).0 ≡ ok n
      → length (put_batch host written spool (signed "b1") headers 5).1.files ≤ 2)
    × (((n : Name) → (put_batch host written spool (signed "b1") headers 5).0 ≢ ok n)
        → (put_batch host written spool (signed "b1") headers 5).1 ≡ spool)
put_capped_example = put_capped host written spool (signed "b1") 5 headers tt

-- A gateway that answers 202 once and is then unreachable.
abbrev once : ℕ → Bytes → Headers → Option ℕ × ℕ
once zero body h = (some 202, 1)
once (suc n) body h = (none, suc n)

abbrev fields : String → ℕ → Fields
fields id at = record {
  format = 1;
  batch_id = id;
  created_at = at;
  body_b64 = id;
  x_signature = signature;
  x_public_key = public_key;
}

abbrev two_waiting : Spool host
two_waiting = record spool {
  files =
      (1 ∷ [], written (fields "b1" 1)) ∷ (2 ∷ [], junk) ∷ (3 ∷ [], written (fields "b3" 3)) ∷ [];
}

abbrev report : DrainReport
report = record {
  delivered = "b1" ∷ [];
  duplicate = [];
  quarantined = [];
  quarantined_files = (2 ∷ []) ∷ [];
  expired = [];
  remaining = 1;
  stopped_on = some none;
}

delivers_one : (drain host once 0 two_waiting 10).0.1 ≡ some report
unfolding drain load sized validate_body move
delivers_one = refl

drain_accounts_example :
    (counted report + 1 ≡ 3) × (length (drain host once 0 two_waiting 10).0.0.files ≡ 1)
drain_accounts_example =
    drain_accounts host once 0 two_waiting 10 report (refl, (refl, (refl, tt))) delivers_one

-- The first file is sent and acknowledged, the second cannot be read, the third is tried.
sends_two :
    (drain host (logged host once) (0, []) two_waiting 10).1.1
    ≡ (signed "b1", read, some 202) ∷ (signed "b3", read, none) ∷ []
unfolding drain load sized validate_body move
sends_two = refl

drain_in_order_example :
    (ns : List Name) × (Lists host once ns two_waiting
      × ((drain host (logged host once) (0, []) two_waiting 10).0.1 ≡ none
          → (drain host (logged host once) (0, []) two_waiting 10).1.1 ≡ [])
      × ((drain host (logged host once) (0, []) two_waiting 10).0.1 ≢ none
          → Sends host
              (waiting host two_waiting 10 ns)
              (drain host (logged host once) (0, []) two_waiting 10).1.1))
drain_in_order_example = drain_in_order host once 0 two_waiting 10 (refl, (refl, (refl, tt)))
