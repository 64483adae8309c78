-- ===== src/Detector/Streams.antt =====
-- Streams of `CUSUMDetector` are independent: what a stream emits in any interleaving is what it
-- emits alone (ENG-1).
use seismograph.Prelude.{
  ℕ, ◌≡◌, refl, ap, ◌∙◌, String, Triple, false, Option, List, [], ◌∷◌, map, keep, inl, inr,
  Bool-cases, beq_refl, if◌then◌else◌, triple_eq, ◌==◌,
}
use mathlib.Core.Path.{subst}
use seismograph.Prelude.Eq.{triple_beq_iff}
use seismograph.Dict.{get-put}
use seismograph.Float.{Float}
use seismograph.Detector.{DriftAlert, MetricState, Detector, update_state, update, state_of}

module _ (fl : Float) where
  pub record Observation : Type 0 where
    pub model_tuple : String
    pub metric_name : String
    pub value : fl.Value
    pub timestamp_ns : ℕ
    pub suite_version : String

  abbrev pub stream : Observation → Triple
  stream o = (o.model_tuple, o.suite_version, o.metric_name)

  -- Every observation in turn, with what `update` returned for it under its stream.
  unfoldable pub run :
      Detector fl → List Observation → List (Triple × Option (DriftAlert fl)) × Detector fl
  run d [] = ([], d)
  run d (o ∷ os) =
      let (alert, d') =
        update fl d o.model_tuple o.metric_name o.value o.timestamp_ns o.suite_version in
      let (alerts, d'') = run d' os in ((stream o, alert) ∷ alerts, d'')

  -- One stream alone.
  unfoldable pub feed :
      MetricState fl → List Observation → List (Option (DriftAlert fl)) × MetricState fl
  feed s [] = ([], s)
  feed s (o ∷ os) =
      let (alert, s') =
        update_state fl s o.value o.model_tuple o.metric_name o.timestamp_ns o.suite_version in
      let (alerts, s'') = feed s' os in (alert ∷ alerts, s'')

  -- What `update` does to the state of a stream.
  pub state_of-update :
      (d : Detector fl) (o : Observation) (k : Triple)
      → state_of fl
          (update fl d o.model_tuple o.metric_name o.value o.timestamp_ns o.suite_version).1
          k
        ≡ (if stream o == k
            then (update_state fl
                (state_of fl d (stream o))
                o.value
                o.model_tuple
                o.metric_name
                o.timestamp_ns
                o.suite_version).1
            else state_of fl d k)
  unfolding update state_of
  state_of-update d o k =
      rw get-put (elim (Bool-cases (stream o == k)) [ inl here ↦ rw here | inr other ↦ rw other ])

  abbrev next : Detector fl → Observation → Detector fl
  next d o = (update fl d o.model_tuple o.metric_name o.value o.timestamp_ns o.suite_version).1

  abbrev result : Detector fl → Observation → Option (DriftAlert fl)
  result d o = (update fl d o.model_tuple o.metric_name o.value o.timestamp_ns o.suite_version).0

  -- The results that a stream got in an interleaving, and its state at the end, are those of the
  -- stream's observations alone.
  abbrev pub ActsAlone : Detector fl → List Observation → Triple → Type 0
  ActsAlone d os k =
      (map (λ r. r.1) (keep (λ r. r.0 == k) (run d os).0)
        ≡ (feed (state_of fl d k) (keep (λ o. stream o == k) os)).0)
      × (state_of fl (run d os).1 k ≡ (feed (state_of fl d k) (keep (λ o. stream o == k) os)).1)

  run-feed_here :
      (d : Detector fl) (o : Observation) (os : List Observation)
      → ActsAlone (next d o) os (stream o)
      → ActsAlone d (o ∷ os) (stream o)
  unfolding run feed update
  run-feed_here d o os (results, state) =
      let own = keep (λ x. stream x == stream o) os in
      let moved = rw (beq_refl (stream o)) at (state_of-update d o (stream o)) in
      rw (beq_refl (stream o)) (
        ap (◌∷◌ (result d o)) (results ∙ ap (λ s. (feed s own).0) moved),
        state ∙ ap (λ s. (feed s own).1) moved,
      )

  run-feed_other :
      (d : Detector fl) (o : Observation) (os : List Observation) (k : Triple)
      → (stream o == k) ≡ false
      → ActsAlone (next d o) os k
      → ActsAlone d (o ∷ os) k
  unfolding run feed
  run-feed_other d o os k other (results, state) =
      let own = keep (λ x. stream x == k) os in
      let kept = rw other at (state_of-update d o k) in
      rw other (results ∙ ap (λ s. (feed s own).0) kept, state ∙ ap (λ s. (feed s own).1) kept)

  -- For every detector, stream and sequence of observations of any streams, the results of the
  -- stream's own observations and its state at the end are those of feeding its own observations
  -- to its state alone.
  pub run-ActsAlone : (d : Detector fl) (os : List Observation) (k : Triple) → ActsAlone d os k
  unfolding run feed
  run-ActsAlone d [] k = (refl, refl)
  run-ActsAlone d (o ∷ os) k = elim (Bool-cases (stream o == k)) [
    | inl here ↦
        let e = (triple_beq_iff (stream o) k).0 here in
        subst (λ j. ActsAlone d (o ∷ os) j) e
          (run-feed_here d o os (run-ActsAlone (next d o) os (stream o)))
    | inr other ↦ run-feed_other d o os k other (run-ActsAlone (next d o) os k)
  ]
