-- ===== src/Compare/Verdict.antt =====
-- probe/compare.py: the metrics, `evaluate_metric`, and what `compare` makes of a run: which sides
-- are measured, the verdicts and the exit code. Rounding for display (`_r`) is left out.
use seismograph.Prelude.{
  ℕ, String, Bool, true, false, Option, none, some, List, [], ◌∷◌, map, length, both, negate,
  if◌then◌else◌, ◌==◌, nat_eq, string_eq, ltb, leb,
}
use seismograph.Float.{Float, maximum}
use seismograph.Compare.{Observation, SuiteItem, valid}
use seismograph.Compare.Asking.{Observations, of_item}
use seismograph.Compare.Stats.{Random, item_stat, mean, permutation_p}

pub data Verdict : Type 0 where
  changed within_noise not_measured : Verdict

-- `reason` of a metric that is not measured
pub data Reason : Type 0 where
  over_limit : Reason
  too_few : ℕ → Reason

abbrev pub min_items_per_metric : ℕ
min_items_per_metric = 5

abbrev pub min_repeats : ℕ
min_repeats = 2

abbrev pub max_repeats : ℕ
max_repeats = 5

-- The values that are not None, of the valid observations.
abbrev pub values {ℓ} : {A : Type ℓ} → (Observation → Option A) → List Observation → List A
values f [] = []
values f (o ∷ os) =
    let rest = values f os in
    if valid o then elim (f o) [ none ↦ rest | some v ↦ v ∷ rest ] else rest

module _ (fl : Float) where
  pub record MetricSpec : Type 1 where
    pub Datum : Type 0
    pub name : String
    pub value : Observation → Option Datum
    pub dist : Datum → Datum → fl.Value
    pub json_only : Bool
    pub heuristic : Bool

  -- `_dist_eq` on digests, `_dist_abs` on numbers
  abbrev pub dist_eq : String → String → fl.Value
  dist_eq a b = if a == b then fl.lit 0 1 else fl.lit 1 1

  abbrev pub dist_abs : fl.Value → fl.Value → fl.Value
  dist_abs a b = let d = fl.sub a b in if fl.ltb d (fl.lit 0 1) then fl.sub (fl.lit 0 1) d else d

  abbrev of_bool : Bool → fl.Value
  of_bool b = if b then fl.lit 1 1 else fl.lit 0 1

  abbrev number_of : Option ℕ → Option fl.Value
  number_of none = none
  number_of (some n) = some (fl.lit n 1)

  abbrev rate_of : Option Bool → Option fl.Value
  rate_of none = none
  rate_of (some b) = some (of_bool b)

  abbrev is_length : Option String → Bool
  is_length none = false
  is_length (some reason) = reason == "length"

  -- A metric of numbers.
  abbrev numeric : String → (Observation → Option fl.Value) → MetricSpec
  numeric name value = record {
    Datum = fl.Value;
    name = name;
    value = value;
    dist = dist_abs;
    json_only = false;
    heuristic = false;
  }

  -- METRICS
  abbrev pub metrics : List MetricSpec
  metrics =
      (record {
        Datum = String;
        name = "agreement";
        value = λ o. o.hash;
        dist = dist_eq;
        json_only = false;
        heuristic = false;
      })
      ∷ numeric "length" (λ o. number_of o.length)
      ∷ (record {
        Datum = fl.Value;
        name = "json_valid";
        value = λ o. rate_of o.json_valid;
        dist = dist_abs;
        json_only = true;
        heuristic = false;
      })
      ∷ numeric "truncated" (λ o. some (of_bool (is_length o.finish_reason)))
      ∷ numeric "empty" (λ o. rate_of o.empty)
      ∷ (record {
        Datum = fl.Value;
        name = "refusal";
        value = λ o. rate_of o.refusal;
        dist = dist_abs;
        json_only = false;
        heuristic = true;
      })
      ∷ numeric "latency" (λ o. number_of o.latency_ms)
      ∷ numeric "output_tokens" (λ o. number_of o.output_tokens)
      ∷ numeric "reasoning_tokens" (λ o. number_of o.reasoning_tokens)
      ∷ []

  pub record Row : Type 0 where
    pub metric : String
    pub heuristic : Bool
    pub eligible_items : ℕ
    pub within_a : Option fl.Value
    pub within_b : Option fl.Value
    pub a_vs_b : Option fl.Value
    pub p_value : Option fl.Value
    pub verdict : Verdict
    pub reason : Option Reason

  -- ALPHA, and the margin of the comparison with the repetition noise
  abbrev pub alpha : fl.Value
  alpha = fl.lit 1 100

  abbrev pub margin : fl.Value
  margin = fl.lit 1 1000000000000

  module _ (spec : MetricSpec) (obs : Observations) (label_a label_b : String) where
    -- The items with two values or more on each side.
    unfoldable pub eligible_pairs : List SuiteItem → List (List spec.Datum × List spec.Datum)
    eligible_pairs [] = []
    eligible_pairs (item ∷ items) =
        let rest = eligible_pairs items in
        let a = values spec.value (of_item label_a item.id obs) in
        let b = values spec.value (of_item label_b item.id obs) in
        if both spec.json_only (negate item.expect_json)
        then rest
        else if both (leb 2 (length a)) (leb 2 (length b))
        then (a, b) ∷ rest
        else rest

  -- `p <= ALPHA and cr > max(wa, wb) + 1e-12`, where no number is NaN
  abbrev pub exceeds : fl.Value → fl.Value → fl.Value → fl.Value → Bool
  exceeds p wa wb cr = both (negate (fl.ltb alpha p)) (fl.ltb (fl.add (maximum fl wa wb) margin) cr)

  abbrev unmeasured : MetricSpec → ℕ → Reason → Row
  unmeasured spec n reason = record {
    metric = spec.name;
    heuristic = spec.heuristic;
    eligible_items = n;
    within_a = none;
    within_b = none;
    a_vs_b = none;
    p_value = none;
    verdict = not_measured;
    reason = some reason;
  }

  module _ (rand : Random) where
    -- The verdict on enough pairs.
    unfoldable pub judge :
        (spec : MetricSpec) → List (List spec.Datum × List spec.Datum) → rand.State → Row
    unfolding item_stat mean permutation_p
    judge spec pairs rng =
        let wa = mean fl (map (λ p. (item_stat fl spec.dist p.0 p.1).wa) pairs) in
        let wb = mean fl (map (λ p. (item_stat fl spec.dist p.0 p.1).wb) pairs) in
        let cr = mean fl (map (λ p. (item_stat fl spec.dist p.0 p.1).cr) pairs) in
        let p = permutation_p fl spec.dist rand pairs rng in
        record {
          metric = spec.name;
          heuristic = spec.heuristic;
          eligible_items = length pairs;
          within_a = some wa;
          within_b = some wb;
          a_vs_b = some cr;
          p_value = some p;
          verdict = if exceeds p wa wb cr then changed else within_noise;
          reason = none;
        }

    unfoldable pub evaluate_metric :
        (spec : MetricSpec)
        → List SuiteItem
        → Observations
        → String
        → String
        → Bool
        → rand.State
        → Row
    unfolding eligible_pairs judge
    evaluate_metric spec items obs label_a label_b measured rng =
        let pairs = eligible_pairs spec obs label_a label_b items in
        if negate measured
        then unmeasured spec (length pairs) over_limit
        else if ltb (length pairs) min_items_per_metric
        then unmeasured spec (length pairs) (too_few (length pairs))
        else judge spec pairs rng
