-- ===== src/Float.antt =====
-- Python's floats as an interface: the type, the operations that the code calls, and the facts of
-- IEEE 754 that some theorems use. No rounding is modelled, so a theorem holds for every value of
-- the interface, the floats of CPython among them. No file of the repository is modelled here.
pub mod Fixed
use seismograph.Prelude.{arith, ℕ, ◌≡◌, Option, Bool, true, false, List, if◌then◌else◌}

pub record Float : Type 1 where
  pub Value : Type 0
  -- the float nearest to a fraction: 0.5 is `lit 1 2`
  pub lit : ℕ → ℕ → Value
  pub add : Value → Value → Value
  pub sub : Value → Value → Value
  pub mul : Value → Value → Value
  pub div : Value → Value → Value
  -- `x ** 2`, none where it raises OverflowError
  pub square : Value → Option Value
  pub sqrt : Value → Value
  -- the builtin `sum` over a list, which CPython may compensate
  pub total : List Value → Value
  -- `round(x, n)`
  pub round : Value → ℕ → Value
  -- `int(x)` of a float that is not below 0; none where it raises, on NaN and infinity
  pub truncate : Value → Option ℕ
  -- a < b, false where either is NaN
  pub ltb : Value → Value → Bool
  -- a <= b, false where either is NaN
  pub leb : Value → Value → Bool

-- What holds of `<` on floats, NaN included.
pub record FloatLaws (fl : Float) : Type 0 where
  pub lt_irrefl : (a : fl.Value) → fl.ltb a a ≡ false
  pub lt_asym : (a b : fl.Value) → fl.ltb a b ≡ true → fl.ltb b a ≡ false
  pub zero_lt_one : fl.ltb (fl.lit 0 1) (fl.lit 1 1) ≡ true

module _ (fl : Float) where
  -- `max(a, b)` and `min(a, b)`: the first argument unless the second is beyond it
  abbrev pub maximum : fl.Value → fl.Value → fl.Value
  maximum a b = if fl.ltb a b then b else a

  abbrev pub minimum : fl.Value → fl.Value → fl.Value
  minimum a b = if fl.ltb b a then b else a

  -- `max(0.0, x)` is never below 0.
  pub maximum_zero :
      FloatLaws fl → (x : fl.Value) → fl.ltb (maximum (fl.lit 0 1) x) (fl.lit 0 1) ≡ false
  maximum_zero laws x = ground (arith, laws.lt_irrefl (fl.lit 0 1), laws.lt_asym (fl.lit 0 1) x)
