-- ===== src/Gateway/Warmup.antt =====
-- What the detector knows after `bootstrap_detector`.
use seismograph.Prelude.{
  eq_iff, either, map, take, drop, ◌-◌, length-drop, take-drop, string_eq, false, sym, ℕ, suc, ◌+◌,
  ◌*◌, ◌≡◌, refl, String, Triple, Option, none, some, List, [], ◌∷◌, ◌++◌, length, keep, ◌==◌,
  triple_eq, arith, ◌∙◌, ap, length-append,
}
use mathlib.Core.Path.{subst}
use mathlib.Core.List.{reverse, reverse-cons, reverse-append, reverse-reverse}
use seismograph.Dict.Keys.{contains, Distinct}
use seismograph.Float.{Float}
use seismograph.Detector.{Detector, update, state_of}
use seismograph.Detector.Streams.{Observation, run, feed, stream, run-ActsAlone}
use seismograph.Repository.{Repository, TelemetrySignal, get_recent_signals}
use seismograph.Gateway.Startup.{
  distinct, place_tuple, sorted_tuples, get_all_model_tuples, Warmed, warm_value, warm_signal,
  warm_signals, warm_tuples, bootstrap_detector,
}

contains-distinct : (m : String) (xs : List String) → contains m (distinct xs) ≡ contains m xs
contains-distinct m [] = refl
contains-distinct m (x ∷ xs) = ground (arith, contains-distinct m xs, eq_iff x m)

Distinct-distinct : (xs : List String) → Distinct (distinct xs)
Distinct-distinct [] = tt
Distinct-distinct (x ∷ xs) = ground (arith, Distinct-distinct xs)

contains-place :
    (m x : String) (ys : List String)
    → contains m (place_tuple x ys) ≡ either (x == m) (contains m ys)
contains-place m x [] = refl
contains-place m x (y ∷ ys) = ground (arith, contains-place m x ys)

Distinct-place :
    (x : String) (ys : List String)
    → contains x ys ≡ false
    → Distinct ys
    → Distinct (place_tuple x ys)
Distinct-place x [] h d = (refl, tt)
Distinct-place x (y ∷ ys) h d =
    ground (arith, Distinct-place x ys, contains-place y x ys, eq_iff x y, eq_iff y x)

contains-sorted : (m : String) (xs : List String) → contains m (sorted_tuples xs) ≡ contains m xs
contains-sorted m [] = refl
contains-sorted m (x ∷ xs) =
    contains-place m x (sorted_tuples xs) ∙ ap (either (x == m)) (contains-sorted m xs)

Distinct-sorted : (xs : List String) → Distinct xs → Distinct (sorted_tuples xs)
Distinct-sorted [] d = tt
Distinct-sorted (x ∷ xs) d =
    Distinct-place x (sorted_tuples xs) (contains-sorted x xs ∙ d.0) (Distinct-sorted xs d.1)

length-reverse {ℓ} : {A : Type ℓ} (xs : List A) → length (reverse xs) ≡ length xs
length-reverse [] = refl
length-reverse (x ∷ xs) =
    ap length (reverse-cons x xs)
    ∙ (length-append (reverse xs) (x ∷ []) ∙ omega (arith, length-reverse xs))

drop-append {ℓ} : {A : Type ℓ} (xs ys : List A) → drop (length xs) (xs ++ ys) ≡ ys
drop-append [] ys = refl
drop-append (x ∷ xs) ys = drop-append xs ys

-- The newest rows in the order of their insertion are the last of the list.
reverse-take {ℓ} :
    {A : Type ℓ} (n : ℕ) (xs : List A) → reverse (take n (reverse xs)) ≡ drop (length xs - n) xs
reverse-take n xs =
    let newest = take n (reverse xs) in
    let older = drop n (reverse xs) in
    let parts : xs ≡ reverse older ++ reverse newest =
      sym (reverse-reverse xs)
      ∙ (ap reverse (sym (take-drop n (reverse xs))) ∙ reverse-append newest older) in
    let count : length xs - n ≡ length (reverse older) =
      omega (arith, length-reverse xs, length-reverse older, length-drop n (reverse xs)) in
    sym (
      ap (drop (length xs - n)) parts
      ∙ (ap (λ i. drop i (reverse older ++ reverse newest)) count
          ∙ drop-append (reverse older) (reverse newest)))

module _ (fl : Float) where
  -- The observation that a row has of a metric, if it has one.
  abbrev pub reading : String → ℕ → String → String → Option fl.Value → List (Observation fl)
  reading model_tuple i suite_version metric_name none = []
  reading model_tuple i suite_version metric_name (some value) =
      record {
        model_tuple = model_tuple;
        metric_name = metric_name;
        value = value;
        timestamp_ns = i * 1000000;
        suite_version = suite_version;
      }
      ∷ []

  -- The JSON rate and the length of each row, in the order of the rows.
  abbrev pub readings : String → ℕ → List (TelemetrySignal fl) → List (Observation fl)
  readings model_tuple i [] = []
  readings model_tuple i (s ∷ signals) =
      reading model_tuple i s.suite_version "json_success_rate" s.json_success_rate
      ++ (reading model_tuple i s.suite_version "avg_output_length" s.avg_output_length
          ++ readings model_tuple (suc i) signals)

  -- The last fifty stored rows of a model, the oldest first.
  abbrev pub last_rows : Repository fl → String → List (TelemetrySignal fl)
  last_rows r model_tuple =
      let own = keep (λ s. s.model_tuple == model_tuple) r.signals in drop (length own - 50) own

  last_rows-recent :
      (r : Repository fl) (m : String) → reverse (get_recent_signals fl r m 50) ≡ last_rows r m
  unfolding get_recent_signals
  last_rows-recent r m = reverse-take 50 (keep (λ s. s.model_tuple == m) r.signals)

  -- Their readings, model by model.
  abbrev pub history : Repository fl → List String → List (Observation fl)
  history r [] = []
  history r (model_tuple ∷ tuples) =
      readings model_tuple 0 (last_rows r model_tuple) ++ history r tuples

  -- If the bootstrap has not failed at the end, it had not before, and in between it counted and
  -- replayed the given readings.
  abbrev Replays : Warmed fl → List (Observation fl) → Warmed fl → Type 0
  Replays w os w' =
      (n : ℕ)
      → w'.0 ≡ some n
      → (t : ℕ) × ((w.0 ≡ some t) × (n ≡ t + length os) × (w'.1 ≡ (run fl w.1 os).1))

  run-append :
      (d : Detector fl) (os ps : List (Observation fl))
      → (run fl d (os ++ ps)).1 ≡ (run fl (run fl d os).1 ps).1
  unfolding run
  run-append d [] ps = refl
  run-append d (o ∷ os) ps =
      run-append (update fl d o.model_tuple o.metric_name o.value o.timestamp_ns o.suite_version).1
        os ps

  Replays-nil : (w : Warmed fl) → Replays w [] w
  unfolding run
  Replays-nil w n h = (n, (h, omega arith, refl))

  Replays-append :
      (w v u : Warmed fl) (os ps : List (Observation fl))
      → Replays w os v
      → Replays v ps u
      → Replays w (os ++ ps) u
  Replays-append w v u os ps first second n h =
      let (k, (there, more, state)) = second n h in
      let (t, (begun, count, before)) = first k there in
      (
        t,
        (
          begun,
          omega (arith, length-append os ps, count, more),
          state ∙ (ap (λ d. (run fl d ps).1) before ∙ sym (run-append w.1 os ps)),
        ),
      )

  warm_value-Replays :
      (model_tuple : String) (i : ℕ) (suite_version metric_name : String) (o : Option fl.Value)
      (w : Warmed fl)
      → Replays w
          (reading model_tuple i suite_version metric_name o)
          (warm_value fl model_tuple i suite_version metric_name o w)
  unfolding warm_value run
  warm_value-Replays model_tuple i suite_version metric_name none w = Replays-nil w
  warm_value-Replays model_tuple i suite_version metric_name (some value) (none, d) =
      λ n h. absurd cc
  warm_value-Replays model_tuple i suite_version metric_name (some value) (some total, d) =
      λ n h. (total, (refl, ground arith, refl))

  warm_signals-Replays :
      (model_tuple : String) (i : ℕ) (signals : List (TelemetrySignal fl)) (w : Warmed fl)
      → Replays w (readings model_tuple i signals) (warm_signals fl model_tuple i signals w)
  unfolding warm_signals warm_signal
  warm_signals-Replays model_tuple i [] w = Replays-nil w
  warm_signals-Replays model_tuple i (s ∷ signals) w =
      let json = reading model_tuple i s.suite_version "json_success_rate" s.json_success_rate in
      let sized = reading model_tuple i s.suite_version "avg_output_length" s.avg_output_length in
      let rest = readings model_tuple (suc i) signals in
      let v =
        warm_value fl model_tuple i s.suite_version "json_success_rate" s.json_success_rate w in
      let u =
        warm_value fl model_tuple i s.suite_version "avg_output_length" s.avg_output_length v in
      let last = warm_signals fl model_tuple (suc i) signals u in
      Replays-append w v last json (sized ++ rest)
        (warm_value-Replays model_tuple i s.suite_version "json_success_rate" s.json_success_rate w)
        (Replays-append v u last sized rest
          (warm_value-Replays model_tuple i s.suite_version "avg_output_length" s.avg_output_length
            v)
          (warm_signals-Replays model_tuple (suc i) signals u))

  warm_tuples-Replays :
      (r : Repository fl) (tuples : List String) (w : Warmed fl)
      → Replays w (history r tuples) (warm_tuples fl r tuples w)
  unfolding warm_tuples
  warm_tuples-Replays r [] w = Replays-nil w
  warm_tuples-Replays r (m ∷ tuples) w =
      let recent = reverse (get_recent_signals fl r m 50) in
      let v = warm_signals fl m 0 recent w in
      subst
        (λ own. Replays w (readings m 0 own ++ history r tuples) (warm_tuples fl r (m ∷ tuples) w))
        (last_rows-recent r m)
        (Replays-append w v (warm_tuples fl r tuples v) (readings m 0 recent) (history r tuples)
          (warm_signals-Replays m 0 recent w) (warm_tuples-Replays r tuples v))

  -- A bootstrap without an exception counts the readings of the last fifty rows of each model with a
  -- stored row, each model once, and leaves each stream in the state that its own readings among
  -- them, the oldest first, lead to.
  pub bootstrap_detector-history :
      (d : Detector fl) (r : Repository fl) (k : Triple) (n : ℕ)
      → (bootstrap_detector fl d r).0 ≡ some n
      → (tuples : List String) × (Distinct tuples
          × ((m : String) → contains m tuples ≡ contains m (map (λ s. s.model_tuple) r.signals))
          × (n ≡ length (history r tuples))
          × (state_of fl (bootstrap_detector fl d r).1 k
              ≡ (feed fl (state_of fl d k) (keep (λ o. stream fl o == k) (history r tuples))).1))
  unfolding bootstrap_detector get_all_model_tuples
  bootstrap_detector-history d r k n fine =
      let stored = map (λ s. s.model_tuple) r.signals in
      let tuples = sorted_tuples (distinct stored) in
      let (t, (begun, count, state)) = warm_tuples-Replays r tuples (some 0, d) n fine in
      let none_yet : 0 ≡ t = cc begun in
      (
        tuples,
        (
          Distinct-sorted (distinct stored) (Distinct-distinct stored),
          λ m. contains-sorted m (distinct stored) ∙ contains-distinct m stored,
          omega (arith, none_yet, count),
          ap (λ x. state_of fl x k) state ∙ (run-ActsAlone fl d (history r tuples) k).1,
        ),
      )
