-- ===== src/Scorer/History.antt =====
-- Sequences of calls of `AgreementScorer`, with the clock that each of them reads.
use seismograph.Prelude.{ℕ, String, Triple, Option, List, [], ◌∷◌}
use seismograph.Scorer.{Scorer, ChangePointResult, observe, ingest, clear, promote_to_public_alert}

pub data Call (R : Type 0) : Type 0 where
  observes : String → String → String → Option ℕ → String → Call R
  ingests : ChangePointResult R → Call R
  promotes : String → String → String → Call R
  clears : String → String → String → Call R

-- The stream that a call names.
abbrev pub stream_of : {R : Type 0} → Call R → Triple
stream_of (observes mt metric org ts suite) = (mt, suite, metric)
stream_of (ingests result) = (result.model_tuple, result.suite_version, result.metric_name)
stream_of (promotes mt metric suite) = (mt, suite, metric)
stream_of (clears mt metric suite) = (mt, suite, metric)

module _ {R : Type 0} where
  unfoldable pub step : Scorer → ℕ × Call R → Scorer
  step s (now, observes mt metric org ts suite) = observe s mt metric org ts suite now
  step s (now, ingests result) = ingest s result now
  step s (now, promotes mt metric suite) = (promote_to_public_alert s mt metric now suite).1
  step s (now, clears mt metric suite) = clear s mt metric suite

  unfoldable pub run : Scorer → List (ℕ × Call R) → Scorer
  unfolding step
  run s [] = s
  run s (c ∷ cs) = run (step s c) cs
