-- ===== src/Audit.antt =====
-- engine/audit.py `AuditReportGenerator` with the repository's `get_signals_before_timestamp`, and
-- gateway/main.py `export_audit_report` (GET /v1/alerts/{id}/export). Rows of equal time may come in
-- any order; here the one inserted first comes first.
pub mod Window
pub mod Export
pub mod Released
mod Examples
use seismograph.Prelude.{
  ℕ, String, Bool, true, false, Option, none, some, List, [], ◌∷◌, map, leb, ltb, both, take, keep,
  if◌then◌else◌, ◌==◌, string_eq,
}
use seismograph.Float.{Float}
use seismograph.Repository.{
  Repository, TelemetrySignal, LocalDriftAlert, PublicDriftAlert, get_local_alert_by_id,
  get_public_alert_by_id,
}

-- The branch of `generate` that resolved the id, and the fields that it reports.
pub data AlertDetails (fl : Float) : Type 0 where
  local_details :
      (id : ℕ) (timestamp model_tuple metric_name : String) (alert_value : fl.Value)
      (client_id : String) (fleet_id : Option String)
      → AlertDetails fl
  public_details :
      (id : ℕ) (timestamp model_tuple metric_name : String) (contributing_org_count : ℕ)
      → AlertDetails fl

pub record EvidenceRow (fl : Float) : Type 0 where
  pub batch_id : String
  pub timestamp : String
  pub model_tuple : String
  pub avg_output_length : Option fl.Value
  pub json_success_rate : Option fl.Value
  pub result_count : fl.Value

-- What is hashed; the report is a body with its checksum.
pub record Body (fl : Float) : Type 0 where
  pub export_timestamp : String
  pub alert_details : AlertDetails fl
  pub baseline_evidence : List (EvidenceRow fl)

pub record Report (fl : Float) : Type 0 where
  pub body : Body fl
  pub report_checksum : String

-- `datetime.isoformat` and the SHA-256 of the canonical `json.dumps`.
pub record Encoding (fl : Float) : Type 0 where
  pub isoformat : ℕ → String
  pub checksum : Body fl → String

-- The columns of the resolved alert that select the evidence.
pub record Subject : Type 0 where
  pub model_tuple : String
  pub fleet_id : Option String
  pub alert_ts : ℕ

module _ (fl : Float) where
  -- Before the first row that is not newer.
  abbrev pub place_signal :
      TelemetrySignal fl → List (TelemetrySignal fl) → List (TelemetrySignal fl)
  place_signal a [] = a ∷ []
  place_signal a (b ∷ bs) =
      let rest = place_signal a bs in if leb b.timestamp a.timestamp then a ∷ b ∷ bs else b ∷ rest

  -- `order_by(TelemetrySignal.timestamp.desc())`
  abbrev pub signals_newest_first : List (TelemetrySignal fl) → List (TelemetrySignal fl)
  signals_newest_first [] = []
  signals_newest_first (a ∷ rest) = place_signal a (signals_newest_first rest)

  -- The filter on the fleet, which no row without a fleet passes.
  unfoldable pub of_fleet : Option String → Option String → Bool
  of_fleet none row = true
  of_fleet (some fleet_id) none = false
  of_fleet (some fleet_id) (some row) = row == fleet_id

  unfoldable pub in_window : Subject → TelemetrySignal fl → Bool
  in_window a s =
      both (s.model_tuple == a.model_tuple)
        (both (ltb s.timestamp a.alert_ts) (of_fleet a.fleet_id s.fleet_id))

  unfoldable pub get_signals_before_timestamp :
      Repository fl → Subject → ℕ → List (TelemetrySignal fl)
  get_signals_before_timestamp r a limit =
      take limit (signals_newest_first (keep (in_window a) r.signals))

  module _ (enc : Encoding fl) where
    abbrev pub evidence_row : TelemetrySignal fl → EvidenceRow fl
    evidence_row s = record {
      batch_id = s.batch_id;
      timestamp = enc.isoformat s.timestamp;
      model_tuple = s.model_tuple;
      avg_output_length = s.avg_output_length;
      json_success_rate = s.json_success_rate;
      result_count = s.result_count;
    }

    abbrev body_of : Repository fl → ℕ → AlertDetails fl → Subject → Body fl
    body_of r now details a = record {
      export_timestamp = enc.isoformat now;
      alert_details = details;
      baseline_evidence = map evidence_row (get_signals_before_timestamp r a 50);
    }

    -- The part of `generate` after the alert is resolved; none is `AlertNotFoundError`.
    unfoldable pub report_on :
        Repository fl → ℕ → Option (AlertDetails fl × Subject) → Option (Report fl)
    report_on r now none = none
    report_on r now (some (details, a)) = some (record {
      body = body_of r now details a;
      report_checksum = enc.checksum (body_of r now details a);
    })

    -- The alert in the one table or else in the other, as what is reported and what is looked up.
    unfoldable pub resolve :
        Option (LocalDriftAlert fl) → Option PublicDriftAlert → Option (AlertDetails fl × Subject)
    resolve (some l) public = some (
      local_details l.id (enc.isoformat l.timestamp) l.model_tuple l.metric_name l.alert_value
          l.client_id l.fleet_id,
      record { model_tuple = l.model_tuple; fleet_id = l.fleet_id; alert_ts = l.timestamp },
    )
    resolve none (some p) = some (
      public_details p.id (enc.isoformat p.timestamp) p.model_tuple p.metric_name
          p.contributing_org_count,
      record { model_tuple = p.model_tuple; fleet_id = none; alert_ts = p.timestamp },
    )
    resolve none none = none

    unfoldable pub generate : Repository fl → ℕ → ℕ → Option (Report fl)
    generate r now alert_id =
        report_on r now
          (resolve (get_local_alert_by_id fl r alert_id) (get_public_alert_by_id fl r alert_id))
