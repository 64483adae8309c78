-- ===== src/Audit/Released.antt =====
-- The audit export: which requests get a report.
use seismograph.Prelude.{nat_eq}
use seismograph.Float.{Float}
use seismograph.Repository.{Repository}
