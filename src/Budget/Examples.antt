-- ===== src/Budget/Examples.antt =====
-- Runs of the privacy budget of probe/privacy.py, and its theorems at concrete inputs.
use seismograph.Prelude.{ℕ, ◌≡◌, refl, true, false, Option, none, some, List, [], ◌∷◌, arith}
use seismograph.Prelude.Int.{pos, ◌+ℤ◌}
use seismograph.Budget.{
  Accountant, no_file, init, epsilon, spent, budget_exceeded, recommended_flush_interval,
}
use seismograph.Budget.Spend.{Flush, flush_budget, run, spend_across_windows, around_midnight}
use seismograph.Budget.Restart.{restart, restart-run}

abbrev flush_at : ℕ → Flush
flush_at t = record { at = t; amount = epsilon; disk_ok = true }

-- A budget of 10 with a file, and six flushes of 2.
abbrev probe : Accountant
probe = record {
  daily_budget = pos 10000000;
  current_spend = pos 0;
  window_start_time = 100;
  persistent = true;
  file = no_file;
}

abbrev six : List Flush
six = flush_at 101 ∷ flush_at 102 ∷ flush_at 103 ∷ flush_at 104 ∷ flush_at 105 ∷ flush_at 106 ∷ []

init-probe : init (pos 10000000) true no_file 100 ≡ some probe
unfolding init
init-probe = refl

sixth_refused :
    (flush_budget
      (run probe (flush_at 101 ∷ flush_at 102 ∷ flush_at 103 ∷ flush_at 104 ∷ flush_at 105 ∷ [])).1
      (flush_at 106)).0
    ≡ budget_exceeded
unfolding run ◌+ℤ◌
sixth_refused = refl

-- A file with a spend and no valid window: the spend is restored, the window starts now.
abbrev half_file : Option Accountant
half_file =
    init (pos 10000000) true (record { spend = some (pos 4000000); window_start = none }) 500

half_file_restored :
    half_file
    ≡ some (record probe {
      current_spend = pos 4000000;
      window_start_time = 500;
      file = record { spend = some (pos 4000000); window_start = none };
    })
unfolding init
half_file_restored = refl

spend_across_windows_example :
    (run probe (around_midnight 100 (pos 10000000) false)).0 ≡ pos 10000000 +ℤ pos 10000000
spend_across_windows_example = spend_across_windows probe false (omega arith) refl

first_granted : (flush_budget probe (flush_at 101)).0 ≡ spent
unfolding flush_budget ◌+ℤ◌
first_granted = refl

restart-run_example : restart (run probe six).1 900 ≡ some (run probe six).1
restart-run_example =
    restart-run probe (flush_at 101)
      (flush_at 102 ∷ flush_at 103 ∷ flush_at 104 ∷ flush_at 105 ∷ flush_at 106 ∷ []) 900
      (omega arith) refl (refl, (refl, (refl, (refl, (refl, (refl, tt)))))) first_granted

five_a_day :
    recommended_flush_interval (pos 10000000) (pos 2000000) 86400
    ≡ some (record { num = 86400; den = 5 })
unfolding recommended_flush_interval
five_a_day = refl
