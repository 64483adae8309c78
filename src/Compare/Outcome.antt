-- ===== src/Compare/Outcome.antt =====
-- probe/compare.py `compare`: a run, judged. The seed (a digest of the run's settings) is a
-- parameter; the files that the code writes, the modal answers and the levels are left out.
use seismograph.Prelude.{
  ℕ, ◌+◌, ◌≤◌, ◌≡◌, ◌↔◌, refl, String, Bool, true, false, Option, none, some, List, [], ◌∷◌, map,
  arith, length, keep, both, either, negate, sym, if◌then◌else◌, nat_eq, string_eq, ltb, leb, All,
}
use mathlib.Core.Path.{subst}
use mathlib.Core.List.{◌++◌}
use seismograph.Float.{Float, maximum}
use seismograph.Compare.{Observation, SuiteItem, Side, Host, valid}
use seismograph.Compare.Asking.{Observations, of_item, run_calls}
use seismograph.Compare.Stats.{Random, item_stat, mean, permutation_p}
use seismograph.Compare.Verdict.{
  changed, within_noise, not_measured, Row, MetricSpec, metrics, values, eligible_pairs,
  evaluate_metric, judge, exceeds, min_repeats, max_repeats, min_items_per_metric,
}

module _ (fl : Float) (rand : Random) where
  -- `[o for it in items for o in obs[side.label][it.id]]`
  unfoldable pub all_observations : String → Observations → List SuiteItem → List Observation
  all_observations label obs [] = []
  all_observations label obs (item ∷ items) =
      of_item label item.id obs ++ all_observations label obs items

  -- `rate <= INFRA_FAILURE_LIMIT`, where no observation at all counts as a rate of 0
  unfoldable pub is_measured : List Observation → Bool
  is_measured [] = true
  is_measured (o ∷ os) =
      let failures = length (keep (λ x. negate (valid x)) (o ∷ os)) in
      negate (fl.ltb (fl.lit 1 10) (fl.div (fl.lit failures 1) (fl.lit (length (o ∷ os)) 1)))

  -- One row for each metric, with a generator of its own.
  unfoldable pub evaluate_all :
      List (MetricSpec fl)
      → ℕ
      → List SuiteItem
      → Observations
      → String
      → String
      → Bool
      → List (Row fl)
  unfolding evaluate_metric
  evaluate_all [] seed items obs a b measured = []
  evaluate_all (spec ∷ specs) seed items obs a b measured =
      evaluate_metric fl rand spec items obs a b measured (rand.seeded seed)
      ∷ evaluate_all specs (seed + 1) items obs a b measured

  pub record Evidence : Type 0 where
    pub measured_a : Bool
    pub measured_b : Bool
    pub planned_a : ℕ
    pub planned_b : ℕ
    pub calls_made : List ℕ
    pub rows : List (Row fl)
    pub exit_code : ℕ

  unfoldable pub evidence : ℕ → List SuiteItem → String → String → Observations → List ℕ → Evidence
  unfolding evaluate_all is_measured all_observations
  evidence seed items a b obs calls_made =
      let obs_a = all_observations a obs items in
      let obs_b = all_observations b obs items in
      let measured = both (is_measured obs_a) (is_measured obs_b) in
      record {
        measured_a = is_measured obs_a;
        measured_b = is_measured obs_b;
        planned_a = length obs_a;
        planned_b = length obs_b;
        calls_made = calls_made;
        rows = evaluate_all (metrics fl) seed items obs a b measured;
        exit_code = if measured then 0 else 2;
      }

  -- `compare`; none is the ValueError on the number of repeats
  unfoldable pub compare :
      {W : Type 0}
      → Host W
      → (String → String → String → ℕ → ℕ)
      → List SuiteItem
      → String
      → Side W
      → Side W
      → ℕ
      → W
      → Option (Evidence × W)
  unfolding evidence run_calls
  compare host seed_of items suite_sha side_a side_b repeats w =
      if both (leb min_repeats repeats) (leb repeats max_repeats)
      then (let (sides, obs, after) = run_calls host items (side_a ∷ side_b ∷ []) repeats w in
          let seed = seed_of suite_sha side_a.requested side_b.requested repeats in
          some (
            evidence seed items side_a.label side_b.label obs (map (λ s. s.calls_made) sides),
            after,
          ))
      else none

  verdict_chosen :
      (m x : Bool) (n : ℕ) (u v j : Row fl)
      → u.verdict ≡ not_measured
      → v.verdict ≡ not_measured
      → j.verdict ≡ (if x then changed else within_noise)
      → ((let r : Row fl = if negate m then u else if ltb n min_items_per_metric then v else j in
            r.verdict)
          ≡ changed)
        ↔ ((m ≡ true) × (min_items_per_metric ≤ n) × (x ≡ true))
  verdict_chosen true true n u v j hu hv hj = ground arith
  verdict_chosen true false n u v j hu hv hj = ground arith
  verdict_chosen false x n u v j hu hv hj = (λ h. cc, λ h. cc)

  -- The values of each item on the two sides, for the items that the metric is about, where both
  -- sides have two or more.
  abbrev pub pairs_of :
      (spec : MetricSpec fl)
      → Observations
      → String
      → String
      → List SuiteItem
      → List (List spec.Datum × List spec.Datum)
  pairs_of spec obs a b items =
      keep (λ p. both (leb 2 (length p.0)) (leb 2 (length p.1)))
        (map
          (λ item.
            (values spec.value (of_item a item.id obs), values spec.value (of_item b item.id obs)))
          (keep (λ item. either (negate spec.json_only) item.expect_json) items))

  eligible_pairs-pairs_of :
      (spec : MetricSpec fl) (obs : Observations) (a b : String) (items : List SuiteItem)
      → eligible_pairs fl spec obs a b items ≡ pairs_of spec obs a b items
  unfolding eligible_pairs
  eligible_pairs-pairs_of spec obs a b [] = refl
  eligible_pairs-pairs_of spec obs a b (item ∷ items) =
      ground (arith, eligible_pairs-pairs_of spec obs a b items)

  exceeds_iff :
      (p wa wb cr : fl.Value)
      → (exceeds fl p wa wb cr ≡ true) ↔ (
          (fl.ltb (fl.lit 1 100) p ≡ false)
          × (fl.ltb (fl.add (maximum fl wa wb) (fl.lit 1 1000000000000)) cr ≡ true))
  exceeds_iff p wa wb cr = ground arith

  -- A metric is CHANGED exactly if both sides are measured, at least five of the items that it is
  -- about have two values or more on each side, the permutation p-value of these is not above 1 %,
  -- and the mean distance between the sides exceeds the larger of the mean distances within them by
  -- more than the margin of 1e-12.
  pub evaluate_metric_changed :
      (spec : MetricSpec fl) (items : List SuiteItem) (obs : Observations) (a b : String)
      (measured : Bool) (rng : rand.State)
      → ((evaluate_metric fl rand spec items obs a b measured rng).verdict ≡ changed) ↔ (
          let pairs = pairs_of spec obs a b items in
          let wa = mean fl (map (λ p. (item_stat fl spec.dist p.0 p.1).wa) pairs) in
          let wb = mean fl (map (λ p. (item_stat fl spec.dist p.0 p.1).wb) pairs) in
          let cr = mean fl (map (λ p. (item_stat fl spec.dist p.0 p.1).cr) pairs) in
          (measured ≡ true)
          × (5 ≤ length pairs)
          × (fl.ltb (fl.lit 1 100) (permutation_p fl spec.dist rand pairs rng) ≡ false)
          × (fl.ltb (fl.add (maximum fl wa wb) (fl.lit 1 1000000000000)) cr ≡ true))
  unfolding evaluate_metric judge
  evaluate_metric_changed spec items obs a b measured rng =
      let pairs = eligible_pairs fl spec obs a b items in
      let wa = mean fl (map (λ p. (item_stat fl spec.dist p.0 p.1).wa) pairs) in
      let wb = mean fl (map (λ p. (item_stat fl spec.dist p.0 p.1).wb) pairs) in
      let cr = mean fl (map (λ p. (item_stat fl spec.dist p.0 p.1).cr) pairs) in
      let (to, from) =
        verdict_chosen measured _ (length pairs) _ _ (judge fl rand spec pairs rng) refl refl
          refl in
      let (split, join) = exceeds_iff (permutation_p fl spec.dist rand pairs rng) wa wb cr in
      rw (sym (eligible_pairs-pairs_of spec obs a b items)) (
        λ h. let (m, n, x) = to h in (m, n, (split x).0, (split x).1),
        λ (m, n, p, x). from (m, n, join (p, x)),
      )

  evaluate_all_unmeasured :
      (specs : List (MetricSpec fl)) (seed : ℕ) (items : List SuiteItem) (obs : Observations)
      (a b : String)
      → All (λ r. r.verdict ≡ not_measured) (evaluate_all specs seed items obs a b false)
  unfolding evaluate_all evaluate_metric
  evaluate_all_unmeasured [] seed items obs a b = tt
  evaluate_all_unmeasured (spec ∷ specs) seed items obs a b =
      (refl, evaluate_all_unmeasured specs (seed + 1) items obs a b)

  evidence-outcome :
      (seed : ℕ) (items : List SuiteItem) (a b : String) (obs : Observations) (calls_made : List ℕ)
      → (let e = evidence seed items a b obs calls_made in
          ((both e.measured_a e.measured_b ≡ true) → e.exit_code ≡ 0)
          × ((both e.measured_a e.measured_b ≡ false)
              → (e.exit_code ≡ 2) × All (λ r. r.verdict ≡ not_measured) e.rows))
  unfolding evidence
  evidence-outcome seed items a b obs calls_made =
      (λ h. rw h refl, λ h. rw h (refl, evaluate_all_unmeasured (metrics fl) seed items obs a b))

  repeats_in : (n : ℕ) → both (leb min_repeats n) (leb n max_repeats) ≡ true → (2 ≤ n) × (n ≤ 5)
  repeats_in n h = (ground arith, ground arith)

  some_of : {A : Type 0} {x y : A} → some x ≡ some y → x ≡ y
  some_of h = cc

  compare_from :
      {A : Type 0} (P : A → Type 0) (ok : Bool) (x : A)
      → P x
      → (e : A) → (if ok then some x else none) ≡ some e
      → (ok ≡ true) × P e
  compare_from {A} P true x p e h = (refl, subst P (some_of h) p)
  compare_from P false x p e h = cc

  -- A comparison that gives a result ran with 2 to 5 repeats. Its exit code is 0 if both sides are
  -- measured; if a side is not, the exit code is 2 and no metric has another verdict than NOT
  -- MEASURED, so that no change is claimed.
  pub compare_outcome :
      {W : Type 0} (host : Host W) (seed_of : String → String → String → ℕ → ℕ)
      (items : List SuiteItem) (suite_sha : String) (side_a side_b : Side W) (repeats : ℕ)
      (w after : W) (e : Evidence)
      → compare host seed_of items suite_sha side_a side_b repeats w ≡ some (e, after)
      → (2 ≤ repeats)
        × (repeats ≤ 5)
        × ((both e.measured_a e.measured_b ≡ true) → e.exit_code ≡ 0)
        × ((both e.measured_a e.measured_b ≡ false)
            → (e.exit_code ≡ 2) × All (λ r. r.verdict ≡ not_measured) e.rows)
  unfolding compare
  compare_outcome host seed_of items suite_sha side_a side_b repeats w after e h =
      let r = run_calls host items (side_a ∷ side_b ∷ []) repeats w in
      let calls = map (λ s. s.calls_made) r.0 in
      let seed = seed_of suite_sha side_a.requested side_b.requested repeats in
      let (ok, p) =
        compare_from
          (λ x.
            ((both x.0.measured_a x.0.measured_b ≡ true) → x.0.exit_code ≡ 0)
            × ((both x.0.measured_a x.0.measured_b ≡ false)
                → (x.0.exit_code ≡ 2) × All (λ r. r.verdict ≡ not_measured) x.0.rows))
          (both (leb min_repeats repeats) (leb repeats max_repeats))
          (evidence seed items side_a.label side_b.label r.1 calls, r.2)
          (evidence-outcome seed items side_a.label side_b.label r.1 calls) (e, after) h in
      ((repeats_in repeats ok).0, (repeats_in repeats ok).1, p.0, p.1)
