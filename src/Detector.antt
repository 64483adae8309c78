-- ===== src/Detector.antt =====
-- engine/detector.py: Page's CUSUM per stream (`_MetricState`) and `CUSUMDetector` over all streams.
-- The floats are a parameter; `_mu0` and `_sigma0`, which are set together, are one option.
pub mod Alerts
pub mod Baseline
pub mod Reset
pub mod Streams
mod Examples
use seismograph.Prelude.{
  ℕ, ◌+◌, ◌-◌, String, Triple, Bool, true, false, Option, none, some, List, [], ◌∷◌, ◌++◌, map, leb,
  ltb, length, keep, both, negate, if◌then◌else◌, triple_eq, string_eq, ◌==◌,
}
use seismograph.Dict.{Dict, get, put, or_default}
use seismograph.Dict.Keys.{keys}
use seismograph.Float.{Float, maximum}

pub data Direction : Type 0 where
  positive negative : Direction

module _ (fl : Float) where
  pub record DriftAlert : Type 0 where
    pub timestamp_ns : ℕ
    pub model_tuple : String
    pub metric_name : String
    pub direction : Direction
    pub cusum_score : fl.Value
    pub threshold : fl.Value
    pub window_count : ℕ
    pub suite_version : String

  pub record MetricState : Type 0 where
    pub min_baseline_samples : ℕ
    pub h : fl.Value
    pub k : fl.Value
    pub buf : List fl.Value
    pub baseline : Option (fl.Value × fl.Value)
    pub s_pos : fl.Value
    pub s_neg : fl.Value
    pub n : ℕ

  -- `__init__`, with the class default of 10 overridden by the detector
  unfoldable pub fresh : ℕ → fl.Value → fl.Value → MetricState
  fresh samples h k = record {
    min_baseline_samples = samples;
    h = h;
    k = k;
    buf = [];
    baseline = none;
    s_pos = fl.lit 0 1;
    s_neg = fl.lit 0 1;
    n = 0;
  }

  -- `[(x - mu) ** 2 for x in self._buf]`; none is an OverflowError
  unfoldable pub squares : fl.Value → List fl.Value → Option (List fl.Value)
  squares mu [] = some []
  squares mu (x ∷ xs) = elim (fl.square (fl.sub x mu)) [
    | none ↦ none
    | some sq ↦ elim (squares mu xs) [ none ↦ none | some rest ↦ some (sq ∷ rest) ]
  ]

  -- mu0 and sigma0 from the variance; sigma is 1 where it is below 1e-9
  unfoldable pub with_variance : fl.Value → Option fl.Value → Option (fl.Value × fl.Value)
  with_variance mu none = none
  with_variance mu (some variance) =
      let sigma = fl.sqrt variance in
      some (mu, if fl.ltb sigma (fl.lit 1 1000000000) then fl.lit 1 1 else sigma)

  -- mu0 and sigma0 of a buffer; none is an OverflowError, which leaves both unset
  unfoldable pub finalize_baseline : List fl.Value → Option (fl.Value × fl.Value)
  unfolding squares with_variance
  finalize_baseline buf =
      let n = length buf in
      let mu = fl.div (fl.total buf) (fl.lit n 1) in
      with_variance mu (
        if ltb 1 n
        then elim (squares mu buf) [
          | none ↦ none
          | some sqs ↦ some (fl.div (fl.total sqs) (fl.lit (n - 1) 1))
        ]
        else some (fl.lit 0 1))

  -- The baseline phase of `update`.
  unfoldable pub collect : MetricState → fl.Value → MetricState
  collect s value =
      let buf = s.buf ++ value ∷ [] in
      if leb s.min_baseline_samples (length buf)
      then record s { buf = buf; baseline = finalize_baseline buf }
      else record s { buf = buf }

  -- Whether the last `update` of the stream raised: its buffer is full and it has no baseline. The
  -- model of `update` then returns none.
  unfoldable pub overflowed : MetricState → Bool
  overflowed s = elim s.baseline [
    | none ↦ leb s.min_baseline_samples (length s.buf)
    | some _ ↦ false
  ]

  unfoldable pub accumulate : MetricState → fl.Value → fl.Value → fl.Value → MetricState
  accumulate s mu0 sigma0 value =
      let z = fl.div (fl.sub value mu0) sigma0 in
      record s {
        s_pos = maximum fl (fl.lit 0 1) (fl.sub (fl.add s.s_pos z) s.k);
        s_neg = maximum fl (fl.lit 0 1) (fl.sub (fl.sub s.s_neg z) s.k);
      }

  -- The two threshold tests of `update`, on the accumulators after the observation.
  unfoldable pub check : MetricState → String → String → ℕ → String → Option DriftAlert
  check s model_tuple metric_name timestamp_ns suite_version =
      let alert = λ (direction : Direction) (score : fl.Value).
        let a : DriftAlert = record {
          timestamp_ns = timestamp_ns;
          model_tuple = model_tuple;
          metric_name = metric_name;
          direction = direction;
          cusum_score = score;
          threshold = s.h;
          window_count = s.n;
          suite_version = suite_version;
        } in
        a in
      if fl.ltb s.h s.s_pos
      then some (alert positive s.s_pos)
      else if fl.ltb s.h s.s_neg
      then some (alert negative s.s_neg)
      else none

  -- `update` from the test of `baseline_ready` on
  unfoldable pub observe_in :
      Option (fl.Value × fl.Value)
      → MetricState
      → fl.Value
      → String
      → String
      → ℕ
      → String
      → Option DriftAlert × MetricState
  unfolding collect accumulate check
  observe_in none s value model_tuple metric_name timestamp_ns suite_version =
      (none, collect s value)
  observe_in (some (mu0, sigma0)) s value model_tuple metric_name timestamp_ns suite_version =
      let s' = accumulate s mu0 sigma0 value in
      (check s' model_tuple metric_name timestamp_ns suite_version, s')

  unfoldable pub update_state :
      MetricState → fl.Value → String → String → ℕ → String → Option DriftAlert × MetricState
  unfolding observe_in
  update_state s value model_tuple metric_name timestamp_ns suite_version =
      observe_in s.baseline (record s { n = s.n + 1 }) value model_tuple metric_name timestamp_ns
        suite_version

  pub record Detector : Type 0 where
    pub h : fl.Value
    pub k : fl.Value
    pub baseline_samples : ℕ
    pub states : Dict Triple MetricState

  -- `__init__`: 10 samples unless overridden
  unfoldable pub init : fl.Value → fl.Value → Option ℕ → Detector
  init h k baseline_samples = record {
    h = h;
    k = k;
    baseline_samples = or_default 10 baseline_samples;
    states = [];
  }

  -- The state of a stream; a stream that is not there yet is created.
  unfoldable pub state_of : Detector → Triple → MetricState
  unfolding fresh
  state_of d key = or_default (fresh d.baseline_samples d.h d.k) (get key d.states)

  -- `timestamp_ns` is the caller's, or the monotonic clock
  unfoldable pub update :
      Detector → String → String → fl.Value → ℕ → String → Option DriftAlert × Detector
  unfolding state_of update_state
  update d model_tuple metric_name value timestamp_ns suite_version =
      let key : Triple = (model_tuple, suite_version, metric_name) in
      let (alert, state) =
        update_state (state_of d key) value model_tuple metric_name timestamp_ns suite_version in
      (alert, record d { states = put key state d.states })

  abbrev pub selects : String → Option String → Option String → Triple → Bool
  selects model_tuple metric_name suite_version (mt, suite, metric) = both (mt == model_tuple) (
      both (elim suite_version [ none ↦ true | some v ↦ suite == v ])
        (elim metric_name [ none ↦ true | some m ↦ metric == m ]))

  unfoldable pub reset : Detector → String → Option String → Option String → Detector
  reset d model_tuple metric_name suite_version = record d {
    states = keep (λ e. negate (selects model_tuple metric_name suite_version e.0)) d.states;
  }

  unfoldable pub tracked_streams : Detector → List Triple
  tracked_streams d = keys d.states
