-- ===== src/Detector/Reset.antt =====
-- `CUSUMDetector.reset`: which streams start again.
use seismograph.Prelude.{triple_eq}
use seismograph.Float.{Float}
use seismograph.Detector.{Detector}
