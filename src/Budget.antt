-- ===== src/Budget.antt =====
-- probe/privacy.py: `DPAccountant`, the daily privacy budget of a probe, and the flush pacing.
-- An amount of epsilon is an integer of millionths, and a time a natural number of microseconds;
-- NaN, float rounding and absorption are not modelled. The clock and the outcome of a write to the disk are arguments.
pub mod Spend
pub mod Restart
pub mod Pacing
mod Examples
use seismograph.Prelude.{
  ℕ, ◌+◌, ◌*◌, ◌/◌, Bool, true, false, Option, none, some, List, [], ◌∷◌, leb, max, both,
  if◌then◌else◌,
}
use seismograph.Prelude.Int.{ℤ, pos, pos_part, ◌+ℤ◌, ◌-ℤ◌, ltb_ℤ, leb_ℤ}

-- EPSILON
abbrev pub epsilon : ℤ
epsilon = pos 2000000

-- timedelta(hours=24)
abbrev pub day : ℕ
day = 86400000000

-- The JSON file of the budget: a field that is missing or does not parse is none. An absent or
-- unreadable file has no spend.
pub record Saved : Type 0 where
  pub spend : Option ℤ
  pub window_start : Option ℕ

abbrev pub no_file : Saved
no_file = record { spend = none; window_start = none }

pub record Accountant : Type 0 where
  pub daily_budget : ℤ
  pub current_spend : ℤ
  pub window_start_time : ℕ
  -- whether there is a `storage_path`, and what the file there holds
  pub persistent : Bool
  pub file : Saved

-- `_load`: the spend is restored before the start of the window is parsed
unfoldable pub load_window : Option ℕ → Accountant → Accountant
load_window none a = a
load_window (some w) a = record a { window_start_time = w }

unfoldable pub load_spend : Saved → Option ℤ → Accountant → Accountant
unfolding load_window
load_spend file none a = a
load_spend file (some e) a = load_window file.window_start (record a { current_spend = e })

unfoldable pub load : Accountant → Accountant
unfolding load_spend
load a = if a.persistent then load_spend a.file a.file.spend a else a

-- `__init__`; none is the ValueError
unfoldable pub init : ℤ → Bool → Saved → ℕ → Option Accountant
unfolding load
init daily_budget persistent file now =
    if leb_ℤ daily_budget (pos 0)
    then none
    else some (
        load (record {
          daily_budget = daily_budget;
          current_spend = pos 0;
          window_start_time = now;
          persistent = persistent;
          file = file;
        }))

-- `_persist`: a failed write is swallowed, and `os.replace` leaves the old file
unfoldable pub persist : Bool → Accountant → Accountant
persist disk_ok a =
    if both a.persistent disk_ok
    then record a {
      file = record { spend = some a.current_spend; window_start = some a.window_start_time };
    }
    else a

unfoldable pub remaining : Accountant → ℤ
remaining a = a.daily_budget -ℤ a.current_spend

pub data SpendResult : Type 0 where
  spent not_positive budget_exceeded : SpendResult

unfoldable pub spend : Bool → Accountant → ℤ → SpendResult × Accountant
unfolding persist
spend disk_ok a eps =
    if leb_ℤ eps (pos 0)
    then (not_positive, a)
    else if ltb_ℤ a.daily_budget (a.current_spend +ℤ eps)
    then (budget_exceeded, a)
    else (spent, persist disk_ok (record a { current_spend = a.current_spend +ℤ eps }))

unfoldable pub reset_if_needed : Bool → Accountant → ℕ → Bool × Accountant
unfolding persist
reset_if_needed disk_ok a now =
    if leb (a.window_start_time + day) now
    then (true, persist disk_ok (record a { current_spend = pos 0; window_start_time = now }))
    else (false, a)

-- `recommended_flush_interval_seconds`: none is the ValueError; the result is the fraction of the
-- window over the number of flushes
pub record Ratio : Type 0 where
  pub num : ℕ
  pub den : ℕ

unfoldable pub max_flushes : ℤ → ℤ → ℕ
max_flushes daily_budget flush_epsilon = max 1 (pos_part daily_budget / pos_part flush_epsilon)

unfoldable pub recommended_flush_interval : ℤ → ℤ → ℕ → Option Ratio
unfolding max_flushes
recommended_flush_interval daily_budget flush_epsilon window =
    if leb_ℤ daily_budget (pos 0)
    then none
    else if leb_ℤ flush_epsilon (pos 0)
    then none
    else some (record { num = window; den = max_flushes daily_budget flush_epsilon })
