-- ===== src/Budget/Spend.antt =====
-- What the accountant of probe/privacy.py grants, over any sequence of flushes.
use mathlib.Core.Path.{subst}
use seismograph.Prelude.{
  ap, ◌∙◌, ◌-◌, ℕ, ◌+◌, ◌≤◌, ◌<◌, ◌≡◌, refl, sym, ◌⊎◌, inl, inr, Bool, false, some, List, [], ◌∷◌,
  arith, leb, Bool-cases, All,
}
use seismograph.Prelude.Int.{
  +ℤ_assoc, zero-+ℤ, +ℤ-zero, ltb→ltℤ, ℤ, pos, ◌+ℤ◌, ◌≤ℤ◌, leb_ℤ, ltb_ℤ, leb→leℤ, ltb→leℤ,
}
use seismograph.Budget.{
  init, no_file, Accountant, SpendResult, spent, not_positive, budget_exceeded, spend,
  reset_if_needed, persist, day,
}

-- The outcome of `spend` on each branch: an amount that is not positive or does not fit changes
-- nothing, and any other is added to the spend and leaves budget and window alone.
pub spend_cases :
    (disk_ok : Bool) (a : Accountant) (eps : ℤ)
    → ((eps ≤ℤ pos 0) × (spend disk_ok a eps ≡ (not_positive, a)))
      ⊎ ((pos 1 ≤ℤ eps)
          × (a.daily_budget +ℤ pos 1 ≤ℤ a.current_spend +ℤ eps)
          × (spend disk_ok a eps ≡ (budget_exceeded, a)))
      ⊎ ((pos 1 ≤ℤ eps)
          × (a.current_spend +ℤ eps ≤ℤ a.daily_budget)
          × (spend disk_ok a eps
              ≡ (spent, persist disk_ok (record a { current_spend = a.current_spend +ℤ eps }))))
unfolding spend
spend_cases disk_ok a eps = elim (Bool-cases (leb_ℤ eps (pos 0))) [
  | inl low ↦ inl (leb→leℤ eps (pos 0) low, rw low)
  | inr high ↦ elim (Bool-cases (ltb_ℤ a.daily_budget (a.current_spend +ℤ eps))) [
    | inl over ↦
        inr (
          inl (ground arith, ltb→ltℤ a.daily_budget (a.current_spend +ℤ eps) over, rw (high, over)))
    | inr fits ↦
        inr (
          inr (ground arith, ltb→leℤ a.daily_budget (a.current_spend +ℤ eps) fits, rw (high, fits)))
  ]
]

-- One flush of the SDK: the reset, then the spend.
pub record Flush : Type 0 where
  pub at : ℕ
  pub amount : ℤ
  pub disk_ok : Bool

unfoldable pub flush_budget : Accountant → Flush → SpendResult × Accountant
unfolding spend reset_if_needed
flush_budget a f = spend f.disk_ok (reset_if_needed f.disk_ok a f.at).1 f.amount

abbrev granted : SpendResult → ℤ → ℤ
granted spent eps = eps
granted _ eps = pos 0

-- The sum of the amounts that a sequence of flushes was granted, and the accountant after it.
unfoldable pub run : Accountant → List Flush → ℤ × Accountant
unfolding flush_budget
run a [] = (pos 0, a)
run a (f ∷ fs) =
    let (result, a') = flush_budget a f in
    let (total, a'') = run a' fs in (granted result f.amount +ℤ total, a'')

leb_early :
    (a : Accountant) (f : Flush)
    → f.at < a.window_start_time + day
    → leb (a.window_start_time + day) f.at ≡ false
leb_early a f early = ground arith

-- What one flush leaves alone, and what it adds.
record Grew (a a' : Accountant) (amount : ℤ) : Type 0 where
  grown : a'.current_spend ≡ a.current_spend +ℤ amount
  same_window : a'.window_start_time ≡ a.window_start_time
  same_budget : a'.daily_budget ≡ a.daily_budget
  bounded : a.current_spend ≤ℤ a.daily_budget → a'.current_spend ≤ℤ a.daily_budget

persist-Grew :
    (disk_ok : Bool) (a a' : Accountant) (amount : ℤ)
    → Grew a a' amount
    → Grew a (persist disk_ok a') amount
unfolding persist
persist-Grew disk_ok a a' amount g = ground arith

spend-Grew :
    (disk_ok : Bool) (a : Accountant) (eps : ℤ)
    → Grew a (spend disk_ok a eps).1 (granted (spend disk_ok a eps).0 eps)
spend-Grew disk_ok a eps = elim (spend_cases disk_ok a eps) [
  | inl (_, e) ↦ rw e (still a)
  | inr (inl (_, _, e)) ↦ rw e (still a)
  | inr (inr (_, fits, e)) ↦ rw e (
      persist-Grew disk_ok a _ eps
        (record { grown = refl; same_window = refl; same_budget = refl; bounded = λ _. fits }))
]
  where
    still : (b : Accountant) → Grew b b (pos 0)
    still b = record {
      grown = sym (+ℤ-zero b.current_spend);
      same_window = refl;
      same_budget = refl;
      bounded = λ h. h;
    }

flush_budget-Grew :
    (a : Accountant) (f : Flush)
    → f.at < a.window_start_time + day
    → Grew a (flush_budget a f).1 (granted (flush_budget a f).0 f.amount)
unfolding flush_budget reset_if_needed
flush_budget-Grew a f early = rw (leb_early a f early) (spend-Grew f.disk_ok a f.amount)

init_fresh :
    (budget : ℤ) (persistent : Bool) (now : ℕ) (a : Accountant)
    → init budget persistent no_file now ≡ some a
    → (a.current_spend ≡ pos 0)
      × (a.window_start_time ≡ now)
      × (a.daily_budget ≡ budget)
      × (pos 1 ≤ℤ budget)
unfolding init
init_fresh budget persistent now a h = ground arith

-- In the model's exact amounts: while the window lasts, the spend grows by exactly what the flushes are granted, the window and
-- the budget stay, and a spend within the budget stays within it.
run_in_window :
    (a : Accountant) (fs : List Flush)
    → All (λ f. f.at < a.window_start_time + day) fs
    → ((run a fs).1.current_spend ≡ a.current_spend +ℤ (run a fs).0)
      × ((run a fs).1.window_start_time ≡ a.window_start_time)
      × ((run a fs).1.daily_budget ≡ a.daily_budget)
      × (a.current_spend ≤ℤ a.daily_budget → (run a fs).1.current_spend ≤ℤ a.daily_budget)
unfolding run
run_in_window a [] h = (sym (+ℤ-zero a.current_spend), refl, refl, λ b. b)
run_in_window a (f ∷ fs) h =
    let g = flush_budget-Grew a f h.0 in
    let a' = (flush_budget a f).1 in
    let later = subst (λ w. All (λ x. x.at < w + day) fs) (sym g.same_window) h.1 in
    let (grown, window, budget, bounded) = run_in_window a' fs later in
    (
      grown
          ∙ ap (λ s. s +ℤ (run a' fs).0) g.grown
          ∙ +ℤ_assoc a.current_spend (granted (flush_budget a f).0 f.amount) (run a' fs).0,
      window ∙ g.same_window,
      budget ∙ g.same_budget,
      λ within.
          subst (λ b. (run a' fs).1.current_spend ≤ℤ b) g.same_budget
            (bounded (subst (λ b. a'.current_spend ≤ℤ b) (sym g.same_budget) (g.bounded within))),
    )

-- In the model's exact amounts, a probe that starts without a file is granted at most its daily
-- budget while its first window
-- lasts, whatever it asks for and however often.
run_granted_le :
    (budget : ℤ) (persistent : Bool) (now : ℕ) (a : Accountant) (fs : List Flush)
    → init budget persistent no_file now ≡ some a
    → All (λ f. f.at < now + day) fs
    → (run a fs).0 ≤ℤ budget
run_granted_le budget persistent now a fs started early =
    let (zero_spend, window, same_budget, positive) = init_fresh budget persistent now a started in
    let (grown, _, _, bounded) =
      run_in_window a fs (subst (λ w. All (λ x. x.at < w + day) fs) (sym window) early) in
    let total_eq = grown ∙ ap (λ x. x +ℤ (run a fs).0) zero_spend ∙ zero-+ℤ (run a fs).0 in
    let within : a.current_spend ≤ℤ a.daily_budget = rw (zero_spend, same_budget) (omega arith) in
    subst (λ x. x ≤ℤ budget) total_eq
      (subst (λ b. (run a fs).1.current_spend ≤ℤ b) same_budget (bounded within))

-- Two flushes of the same amount, a microsecond apart: the last one of the window that starts at
-- the given time, and the first one after it.
abbrev pub around_midnight : ℕ → ℤ → Bool → List Flush
around_midnight start amount disk_ok =
    record { at = start + day - 1; amount = amount; disk_ok = disk_ok }
    ∷ record { at = start + day; amount = amount; disk_ok = disk_ok }
    ∷ []

late_flush :
    (a : Accountant) (f : Flush)
    → a.window_start_time + day ≤ f.at
    → pos 1 ≤ℤ f.amount
    → f.amount ≤ℤ a.daily_budget
    → (flush_budget a f).0 ≡ spent
unfolding flush_budget spend reset_if_needed
late_flush a f late positive fits = ground (arith, zero-+ℤ f.amount)

fitting_flush :
    (a : Accountant) (f : Flush)
    → f.at < a.window_start_time + day
    → pos 1 ≤ℤ f.amount
    → a.current_spend +ℤ f.amount ≤ℤ a.daily_budget
    → (flush_budget a f).0 ≡ spent
unfolding flush_budget spend reset_if_needed
fitting_flush a f early positive fits = ground arith

-- The window is a fixed one: a probe that has spent nothing yet is granted its whole budget in the
-- last microsecond of a window and the whole budget once more in the next microsecond.
pub spend_across_windows :
    (a : Accountant) (disk_ok : Bool)
    → pos 1 ≤ℤ a.daily_budget
    → a.current_spend ≡ pos 0
    → (run a (around_midnight a.window_start_time a.daily_budget disk_ok)).0
      ≡ a.daily_budget +ℤ a.daily_budget
unfolding run
spend_across_windows a disk_ok positive z =
    let first : Flush = record {
      at = a.window_start_time + day - 1;
      amount = a.daily_budget;
      disk_ok = disk_ok;
    } in
    let second : Flush = record {
      at = a.window_start_time + day;
      amount = a.daily_budget;
      disk_ok = disk_ok;
    } in
    let g = flush_budget-Grew a first (omega arith) in
    let one =
      fitting_flush a first (omega arith) positive (rw (z, zero-+ℤ a.daily_budget) (omega arith)) in
    let two =
      late_flush (flush_budget a first).1 second (rw g.same_window (omega arith)) positive
        (rw g.same_budget (omega arith)) in
    rw (one, two) (ap (λ x. a.daily_budget +ℤ x) (+ℤ-zero a.daily_budget))
