-- ===== src/Budget/Pacing.antt =====
-- `recommended_flush_interval_seconds` of probe/privacy.py: flushes at this spacing fit the budget.
use native.Mathlib.Nat.{le_trans}
use seismograph.Prelude.{
  ℕ, suc, ◌*◌, ◌/◌, ◌≤◌, ◌<◌, ◌≡◌, ◌∙◌, sym, ◌⊎◌, ◌↔◌, none, some, arith, max,
}
use seismograph.Prelude.Int.{ℤ, pos, ◌≤ℤ◌}
use seismograph.Budget.{Ratio, recommended_flush_interval}

-- The interval is refused exactly when an argument is not positive.
pub interval-eq-none_iff :
    (budget flush : ℤ) (window : ℕ)
    → (recommended_flush_interval budget flush window ≡ none)
      ↔ ((budget ≤ℤ pos 0) ⊎ (flush ≤ℤ pos 0))
unfolding recommended_flush_interval
interval-eq-none_iff budget flush window = ground arith

interval_parts :
    (budget flush window : ℕ) (r : Ratio)
    → recommended_flush_interval (pos budget) (pos flush) window ≡ some r
    → (0 < flush) × (r.num ≡ window) × (r.den ≡ max 1 (budget / flush))
unfolding recommended_flush_interval
interval_parts budget flush window r h = ground arith

quotient_bounds : (b f : ℕ) → 0 < f → (b / f * f ≤ b) × (b < suc (b / f) * f)
quotient_bounds b f h = (grind arith, grind arith)

quotient_pos : (b f : ℕ) → 0 < f → f ≤ b → b / f ≡ max 1 (b / f)
quotient_pos b f h k = grind arith

count_le : (c d w f : ℕ) → 0 < w → c * w ≤ w * d → c ≤ d
count_le c d w f h k = grind arith

mul_le : (c d f : ℕ) → c ≤ d → c * f ≤ d * f
mul_le c d f h = grind arith

-- If one flush fits the daily budget, then any number of flushes that fit into the window at the
-- recommended spacing cost at most the daily budget, and one flush more than the recommended number
-- would cost more.
interval_fits :
    (budget flush window : ℕ) (r : Ratio)
    → 0 < window
    → flush ≤ budget
    → recommended_flush_interval (pos budget) (pos flush) window ≡ some r
    → ((count : ℕ) → count * r.num ≤ window * r.den → count * flush ≤ budget)
      × (budget < suc r.den * flush)
unfolding recommended_flush_interval
interval_fits budget flush window r pos_w one h =
    let (pos_f, num, den) = interval_parts budget flush window r h in
    let (low, high) = quotient_bounds budget flush pos_f in
    let quotient : r.den ≡ budget / flush = den ∙ sym (quotient_pos budget flush pos_f one) in
    (
      λ count fits.
          let few = count_le count r.den window flush pos_w (rw num at fits) in
          le_trans (mul_le count (budget / flush) flush (rw quotient at few)) low,
      rw quotient high,
    )
