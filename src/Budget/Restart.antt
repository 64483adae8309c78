-- ===== src/Budget/Restart.antt =====
-- The budget file of probe/privacy.py: a restart does not refresh the budget.
use seismograph.Prelude.{◌∙◌, All, ℕ, ◌≡◌, ◌∙◌, All, refl, true, Option, some, List, [], ◌∷◌, arith}
use seismograph.Prelude.Int.{pos, ◌≤ℤ◌}
use seismograph.Budget.{Accountant, init, spent, spend, reset_if_needed}
use seismograph.Budget.Spend.{Flush, flush_budget, run}

-- The file holds the current state.
abbrev pub Synced : Accountant → Type 0
Synced a = (a.file.spend ≡ some a.current_spend) × (a.file.window_start ≡ some a.window_start_time)

-- The state of a restarted process: the same file, at any later time.
abbrev pub restart : Accountant → ℕ → Option Accountant
restart a now = init a.daily_budget a.persistent a.file now

-- A process that restarts on a file which holds its state continues with exactly that state.
pub restart-Synced :
    (a : Accountant) (now : ℕ)
    → pos 1 ≤ℤ a.daily_budget
    → a.persistent ≡ true
    → Synced a
    → restart a now ≡ some a
unfolding init
restart-Synced a now positive p sync = ground arith

flush-Synced :
    (a : Accountant) (f : Flush)
    → a.persistent ≡ true
    → f.disk_ok ≡ true
    → Synced a
    → Synced (flush_budget a f).1
      × ((flush_budget a f).1.persistent ≡ true)
      × ((flush_budget a f).1.daily_budget ≡ a.daily_budget)
unfolding flush_budget spend reset_if_needed
flush-Synced a f p d sync = ground arith

flush_keeps :
    (a : Accountant) (f : Flush)
    → ((flush_budget a f).1.persistent ≡ a.persistent)
      × ((flush_budget a f).1.daily_budget ≡ a.daily_budget)
unfolding flush_budget spend reset_if_needed
flush_keeps a f = ground arith

granted-Synced :
    (a : Accountant) (f : Flush)
    → a.persistent ≡ true
    → f.disk_ok ≡ true
    → (flush_budget a f).0 ≡ spent
    → Synced (flush_budget a f).1
unfolding flush_budget spend reset_if_needed
granted-Synced a f p d granted = ground arith

run-Synced :
    (a : Accountant) (fs : List Flush)
    → a.persistent ≡ true
    → All (λ x. x.disk_ok ≡ true) fs
    → Synced a
    → Synced (run a fs).1
      × ((run a fs).1.persistent ≡ true)
      × ((run a fs).1.daily_budget ≡ a.daily_budget)
unfolding run
run-Synced a [] p d sync = (sync, p, refl)
run-Synced a (f ∷ fs) p d sync =
    let (sync', p', b') = flush-Synced a f p d.0 sync in
    let (sync'', p'', b'') = run-Synced (flush_budget a f).1 fs p' d.1 sync' in
    (sync'', p'', b'' ∙ b')

-- Where the budget has a file and the disk works, a granted flush followed by any flushes leaves a
-- file from which a new process restores exactly the spend and the window of the old one.
pub restart-run :
    (a : Accountant) (f : Flush) (fs : List Flush) (now : ℕ)
    → pos 1 ≤ℤ a.daily_budget
    → a.persistent ≡ true
    → All (λ x. x.disk_ok ≡ true) (f ∷ fs)
    → (flush_budget a f).0 ≡ spent
    → restart (run a (f ∷ fs)).1 now ≡ some (run a (f ∷ fs)).1
unfolding run
restart-run a f fs now positive p disk granted =
    let a' = (flush_budget a f).1 in
    let (p', b') = flush_keeps a f in
    let (sync, p'', b'') = run-Synced a' fs (p' ∙ p) disk.1 (granted-Synced a f p disk.0 granted) in
    restart-Synced (run a' fs).1 now (rw (b'' ∙ b') positive) p'' sync
