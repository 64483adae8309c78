-- ===== src/Repository.antt =====
-- engine/models.py and engine/repository.py: the tables, and `SignalRepository` over them. A table
-- is a list of rows in the order of insertion; the time that a write reads from the clock is an
-- argument, in microseconds. Text lengths of columns are not enforced, as in SQLite.
use seismograph.Prelude.{
  leb, both, ℕ, suc, String, Bool, Option, none, some, List, [], ◌∷◌, ◌++◌, map, length, take, keep,
  negate, if◌then◌else◌, ◌==◌, string_eq, nat_eq,
}
use mathlib.Core.List.{reverse}
use seismograph.Dict.{get, or_default}
use seismograph.Dict.Keys.{contains}
use seismograph.Float.{Float}
use seismograph.Schema.{Batch}
use seismograph.Detector.{DriftAlert}

pub record WebhookConfig : Type 0 where
  pub fleet_id : String
  pub target_url : String
  pub auth_token : Option String

pub record PublicDriftAlert : Type 0 where
  pub id : ℕ
  pub timestamp : ℕ
  pub model_tuple : String
  pub metric_name : String
  pub contributing_org_count : ℕ

-- The first row that passes.
abbrev pub first {ℓ} : {A : Type ℓ} → (A → Bool) → List A → Option A
first p [] = none
first p (x ∷ xs) = if p x then some x else first p xs

-- Before the first row that is not newer.
abbrev pub place_alert : PublicDriftAlert → List PublicDriftAlert → List PublicDriftAlert
place_alert a [] = a ∷ []
place_alert a (b ∷ bs) =
    let rest = place_alert a bs in if leb b.timestamp a.timestamp then a ∷ b ∷ bs else b ∷ rest

-- `order_by(timestamp.desc())`
abbrev pub newest_first : List PublicDriftAlert → List PublicDriftAlert
newest_first [] = []
newest_first (a ∷ rest) = place_alert a (newest_first rest)

module _ (fl : Float) where
  pub record TelemetrySignal : Type 0 where
    pub id : ℕ
    pub batch_id : String
    pub timestamp : ℕ
    pub model_tuple : String
    pub avg_output_length : Option fl.Value
    pub json_success_rate : Option fl.Value
    pub result_count : fl.Value
    pub fleet_id : Option String
    pub suite_version : String

  pub record LocalDriftAlert : Type 0 where
    pub id : ℕ
    pub timestamp : ℕ
    pub model_tuple : String
    pub metric_name : String
    pub alert_value : fl.Value
    pub client_id : String
    pub fleet_id : Option String

  pub record Repository : Type 0 where
    pub signals : List TelemetrySignal
    pub local_alerts : List LocalDriftAlert
    pub public_alerts : List PublicDriftAlert
    pub webhooks : List WebhookConfig

  abbrev pub empty : Repository
  empty = record { signals = []; local_alerts = []; public_alerts = []; webhooks = [] }

  unfoldable pub save_batch : Repository → Batch fl → ℕ → Repository
  save_batch r batch now = record r {
    signals =
        r.signals
        ++ record {
          id = suc (length r.signals);
          batch_id = batch.batch_id;
          timestamp = now;
          model_tuple = batch.model_tuple;
          avg_output_length = get "avg_output_length" batch.metrics;
          json_success_rate = get "json_success_rate" batch.metrics;
          result_count =
              or_default (fl.lit batch.result_count 1) (get "result_count" batch.metrics);
          fleet_id = batch.fleet_id;
          suite_version = batch.suite_version;
        }
          ∷ [];
  }

  unfoldable pub has_batch : Repository → String → Bool
  has_batch r batch_id = contains batch_id (map (λ s. s.batch_id) r.signals)

  unfoldable pub save_local_alert :
      Repository → DriftAlert fl → String → Option String → ℕ → Repository
  save_local_alert r alert client_id fleet_id now = record r {
    local_alerts =
        r.local_alerts
        ++ record {
          id = suc (length r.local_alerts);
          timestamp = now;
          model_tuple = alert.model_tuple;
          metric_name = alert.metric_name;
          alert_value = alert.cusum_score;
          client_id = client_id;
          fleet_id = fleet_id;
        }
          ∷ [];
  }

  unfoldable pub save_public_alert : Repository → String → String → ℕ → ℕ → Repository
  save_public_alert r model_tuple metric_name contributing_org_count now = record r {
    public_alerts =
        r.public_alerts
        ++ record {
          id = suc (length r.public_alerts);
          timestamp = now;
          model_tuple = model_tuple;
          metric_name = metric_name;
          contributing_org_count = contributing_org_count;
        }
          ∷ [];
  }

  -- delete, then add, in one transaction
  unfoldable pub register_webhook : Repository → String → String → Option String → Repository
  register_webhook r fleet_id target_url auth_token = record r {
    webhooks =
        keep (λ w. negate (w.fleet_id == fleet_id)) r.webhooks
        ++ record { fleet_id = fleet_id; target_url = target_url; auth_token = auth_token } ∷ [];
  }

  unfoldable pub get_webhook : Repository → String → Option WebhookConfig
  get_webhook r fleet_id = first (λ w. w.fleet_id == fleet_id) r.webhooks

  -- newest first
  unfoldable pub get_recent_signals : Repository → String → ℕ → List TelemetrySignal
  get_recent_signals r model_tuple limit =
      take limit (reverse (keep (λ s. s.model_tuple == model_tuple) r.signals))

  unfoldable pub get_local_alert_by_id : Repository → ℕ → Option LocalDriftAlert
  get_local_alert_by_id r alert_id = first (λ a. a.id == alert_id) r.local_alerts

  unfoldable pub get_public_alert_by_id : Repository → ℕ → Option PublicDriftAlert
  get_public_alert_by_id r alert_id = first (λ a. a.id == alert_id) r.public_alerts

  -- the newest first; `cutoff` is the clock less `hours_back`
  unfoldable pub get_recent_alerts : Repository → String → ℕ → List PublicDriftAlert
  get_recent_alerts r model_tuple cutoff =
      newest_first
        (keep (λ a. both (a.model_tuple == model_tuple) (leb cutoff a.timestamp)) r.public_alerts)
