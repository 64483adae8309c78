-- ===== src/Spool.antt =====
-- probe/spool.py: the directory of signed batches that wait for the gateway, and `SignalBatch` of
-- probe/privacy.py, which every spooled body must be. Times are natural numbers of milliseconds
-- below 10^15. The spool is the only writer of its directory, and no call of the file system fails.
pub mod Body
pub mod Store
pub mod Files
pub mod Held
pub mod Loaded
pub mod Scanned
pub mod Cap
pub mod Reload
pub mod Order
pub mod Waiting
pub mod Sent
mod Examples
pub mod Account
pub mod Drain
use seismograph.Prelude.{
  ℕ, zero, suc, ◌+◌, ◌-◌, String, Bool, true, false, Option, none, some, List, [], ◌∷◌, ◌++◌,
}

-- What a call ends with: a value, a ValueError, or an exception that the code does not expect.
pub data Result (A : Type 0) : Type 0 where
  ok : A → Result A
  value_error other_error : Result A

-- What the spool calls: JSON, base64, UUIDs and the lower case of a text.
pub record Host : Type 1 where
  pub Bytes : Type 0
  pub Value : Type 0
  pub same_bytes : Bytes → Bytes → Bool
  -- UTF-8 and JSON; none on an error of either
  pub loads : Bytes → Option Value
  -- isinstance with str and with dict
  pub as_text : Value → Option String
  pub as_object : Value → Option (List (String × Value))
  pub is_null : Value → Bool
  -- `v == 1`
  pub is_one : Value → Bool
  -- `v < 1`, or no comparison with a number
  pub below_one : Value → Bool
  -- `set(v)`, none where it raises
  pub members : Value → Option (List Value)
  -- json.dumps with sorted keys and compact separators, in UTF-8
  pub canonical_json : List (String × Value) → Bytes
  -- `uuid.UUID(s)` raises no ValueError
  pub is_uuid : String → Bool
  pub b64encode : Bytes → String
  -- none on every exception
  pub b64decode : Value → Option Bytes
  -- `float(v)`: a ValueError or TypeError, or an OverflowError, which `_load` does not catch
  pub as_time : Value → Result ℕ
  pub lower : String → String
