-- ===== src/Audit/Examples.antt =====
-- Reports over a small store, and the theorems on them at concrete inputs.
use seismograph.Prelude.{
  nat_eq, ℕ, ◌≡◌, refl, String, Option, none, some, [], ◌∷◌, if◌then◌else◌, ◌==◌, string_eq,
}
use seismograph.Float.Fixed.{fixed}
use seismograph.Repository.{
  Repository, TelemetrySignal, get_local_alert_by_id, get_public_alert_by_id,
}
use seismograph.Audit.{
  Encoding, Report, EvidenceRow, public_details, generate, report_on, resolve,
  get_signals_before_timestamp, in_window, of_fleet,
}
use seismograph.Audit.Export.{
  answer_with, exported, disabled, unauthorized, not_found, crashed, export_audit_report,
}
use seismograph.Audit.Window.{Reported, generate-Reported}

abbrev numeral : ℕ → String
numeral at = if at == 1 then "01" else if at == 2 then "02" else if at == 5 then "05" else "09"

abbrev encoding : Encoding fixed
encoding = record { isoformat = numeral; checksum = λ body. body.export_timestamp }

abbrev signal : ℕ → String → Option String → TelemetrySignal fixed
signal at model fleet = record {
  id = at;
  batch_id = "batch";
  timestamp = at;
  model_tuple = model;
  avg_output_length = none;
  json_success_rate = some (fixed.lit 1 1);
  result_count = fixed.lit 3 1;
  fleet_id = fleet;
  suite_version = "v1";
}

-- Four signals of two models and one fleet, and an alert of each kind under the id 1.
abbrev stored : Repository fixed
stored = record {
  signals =
      signal 1 "gpt" none
      ∷ signal 2 "gpt" (some "fleet")
      ∷ signal 3 "llama" none
      ∷ signal 5 "gpt" none
      ∷ [];
  local_alerts = [];
  public_alerts =
      record {
        id = 1;
        timestamp = 5;
        model_tuple = "gpt";
        metric_name = "json";
        contributing_org_count = 5;
      }
      ∷ [];
  webhooks = [];
}

abbrev row : ℕ → EvidenceRow fixed
row at = record {
  batch_id = "batch";
  timestamp = numeral at;
  model_tuple = "gpt";
  avg_output_length = none;
  json_success_rate = some (fixed.lit 1 1);
  result_count = fixed.lit 3 1;
}

abbrev report : Report fixed
report = record {
  body = record {
    export_timestamp = numeral 9;
    alert_details = public_details 1 (numeral 5) "gpt" "json" 5;
    baseline_evidence = row 2 ∷ row 1 ∷ [];
  };
  report_checksum = numeral 9;
}

-- The signal of a private fleet is evidence of the public alert, the signal at its time is not.
evidence_of_fleet : generate fixed encoding stored 9 1 ≡ some report
unfolding generate report_on resolve get_local_alert_by_id get_public_alert_by_id
    get_signals_before_timestamp in_window of_fleet
evidence_of_fleet = refl

export_exported :
    export_audit_report fixed encoding (some "k") (some "Bearer k") stored 9 1 ≡ exported report
unfolding export_audit_report generate report_on resolve get_local_alert_by_id
    get_public_alert_by_id answer_with get_signals_before_timestamp in_window of_fleet
export_exported = refl

export_disabled : export_audit_report fixed encoding none (some "Bearer k") stored 9 1 ≡ disabled
unfolding export_audit_report
export_disabled = refl

export_unauthorized :
    export_audit_report fixed encoding (some "k") (some "Bearer kk") stored 9 1 ≡ unauthorized
unfolding export_audit_report
export_unauthorized = refl

export_not_found :
    export_audit_report fixed encoding (some "k") (some "Bearer k") stored 9 2 ≡ not_found
unfolding export_audit_report generate report_on resolve get_local_alert_by_id
    get_public_alert_by_id answer_with
export_not_found = refl

-- A token that is not ASCII is neither right nor wrong.
export_crashed :
    export_audit_report fixed encoding (some "k") (some "Bearer é") stored 9 1 ≡ crashed
unfolding export_audit_report
export_crashed = refl

generate-Reported_example :
    Reported fixed encoding stored
      (get_local_alert_by_id fixed stored 1)
      (get_public_alert_by_id fixed stored 1)
      (generate fixed encoding stored 9 1)
generate-Reported_example = generate-Reported fixed encoding stored 9 1
