-- ===== src/Weather/Rates.antt =====
-- The JSON success rate that `_scorable_json_rate` publishes.
use seismograph.Prelude.{
  arith, false, ◌≢◌, ap, ◌∙◌, string_eq, ℕ, ◌≡◌, refl, String, true, Option, none, some, ◌==◌,
  nat_eq, Bool-cases, inl, inr, ◌⊎◌,
}
use seismograph.Dict.{get}
use seismograph.Float.{Float, maximum, minimum}
use seismograph.Weather.{json_base_by_suite, rescale, rate_on, scorable_json_rate}

module _ (fl : Float) where
  -- 0, 1 or strictly between them.
  abbrev pub IsRate : fl.Value → Type 0
  IsRate x =
      (x ≡ fl.lit 0 1)
      ⊎ ((x ≡ fl.lit 1 1) ⊎ ((fl.ltb (fl.lit 0 1) x ≡ true) × (fl.ltb x (fl.lit 1 1) ≡ true)))

  -- A complete run of a suite whose canaries are known.
  abbrev pub IsComplete : fl.Value → Option (ℕ × ℕ) → Type 0
  IsComplete count none = ⊥
  IsComplete count (some (total, scorable)) = fl.truncate count ≡ some total

  clamp-IsRate : (x : fl.Value) → IsRate (maximum fl (fl.lit 0 1) (minimum fl (fl.lit 1 1) x))
  clamp-IsRate x = elim (Bool-cases (fl.ltb x (fl.lit 1 1))) [
    | inl below ↦ rw below (elim (Bool-cases (fl.ltb (fl.lit 0 1) x)) [
      | inl above ↦ rw above (inr (inr (above, below)))
      | inr not_above ↦ rw not_above (inl refl)
    ])
    | inr not_below ↦ rw not_below (elim (Bool-cases (fl.ltb (fl.lit 0 1) (fl.lit 1 1))) [
      | inl above ↦ rw above (inr (inl refl))
      | inr not_above ↦ rw not_above (inl refl)
    ])
  ]

  -- A published rate is one and of a complete run; no rate is published exactly where there is none,
  -- no result or no complete run; an exception is one of `int`.
  abbrev pub Rated : Option fl.Value → fl.Value → Option (ℕ × ℕ) → Option (Option fl.Value) → Type 0
  Rated raw count base none = fl.truncate count ≡ none
  Rated raw count base (some none) =
      (raw ≡ none) ⊎ ((fl.leb count (fl.lit 0 1) ≡ true) ⊎ (IsComplete count base → ⊥))
  Rated raw count base (some (some r)) =
      (raw ≢ none) × (fl.leb count (fl.lit 0 1) ≡ false) × IsComplete count base × IsRate r

  rescale-Rated :
      (raw count : fl.Value) (t : Option ℕ) (total scorable : ℕ)
      → fl.leb count (fl.lit 0 1) ≡ false
      → fl.truncate count ≡ t
      → Rated (some raw) count (some (total, scorable)) (rescale fl raw t total scorable)
  unfolding rescale
  rescale-Rated raw count none total scorable counted e = e
  rescale-Rated raw count (some n) total scorable counted e = elim (Bool-cases (n == total)) [
    | inl full ↦
        rw (full, rescale)
          (λ h. cc, counted, e ∙ ap some ((nat_eq.beq_iff n total).0 full), clamp-IsRate _)
    | inr part ↦ rw (part, rescale) (inr (inr (λ whole. absurd (ground (arith, e, whole, part)))))
  ]

  rate_on-Rated :
      (raw count : fl.Value) (base : Option (ℕ × ℕ))
      → fl.leb count (fl.lit 0 1) ≡ false
      → Rated (some raw) count base (rate_on fl raw count base)
  unfolding rate_on
  rate_on-Rated raw count none counted = inr (inr (λ whole. whole))
  rate_on-Rated raw count (some (total, scorable)) counted =
      rescale-Rated raw count (fl.truncate count) total scorable counted refl

  -- A JSON success rate is published exactly for a batch that has a rate, a count above 0 and as
  -- many results as its suite has canaries, the suite being known, and it is 0, 1 or between them.
  -- The function raises only on a count that `int` does not take, NaN or infinity.
  pub scorable_json_rate-Rated :
      (raw : Option fl.Value) (count : fl.Value) (suite : String)
      → Rated raw count (get suite json_base_by_suite) (scorable_json_rate fl raw count suite)
  unfolding scorable_json_rate
  scorable_json_rate-Rated none count suite = inl refl
  scorable_json_rate-Rated (some raw) count suite = elim (Bool-cases (fl.leb count (fl.lit 0 1))) [
    | inl empty_run ↦ rw (empty_run, scorable_json_rate) (inr (inl empty_run))
    | inr counted_run ↦
        rw (counted_run, scorable_json_rate)
          (rate_on-Rated raw count (get suite json_base_by_suite) counted_run)
  ]
