-- ===== src/Gateway.antt =====
-- gateway/auth.py `verify_signature` and gateway/main.py `ingest_signals` (POST /v1/signals), with
-- the state that `lifespan` sets up. One request is one step: the handler has no `await` after it has
-- read the body, so requests do not interleave. The clocks are read once for each request. A response
-- is what the handler returns or raises; its serialisation afterwards is the framework's.
pub mod Loop
pub mod Store
pub mod Fleet
pub mod Public
pub mod Backed
pub mod Startup
pub mod Warmup
mod Examples
use seismograph.Prelude.{
  ℕ, String, Bool, true, false, Option, none, some, List, [], ◌∷◌, ◌++◌, either, Triple,
  if◌then◌else◌, ◌==◌, string_eq,
}
use seismograph.Dict.{Dict, get, put, or_default}
use seismograph.Float.{Float}
use seismograph.Schema.{Batch, Validation, valid, invalid, raised, validate}
use seismograph.Repository
use seismograph.Repository.{Repository, WebhookConfig}
use seismograph.Scorer
use seismograph.Scorer.{Scorer}
use seismograph.Detector
use seismograph.Detector.{Detector, Direction, DriftAlert}

pub record DriftNotification (fl : Float) : Type 0 where
  pub model_tuple : String
  pub metric_name : String
  pub alert_value : fl.Value
  pub timestamp : ℕ
  pub fleet_id : String

-- What the gateway calls and the repository does not implement: Ed25519 with the parsing of the two
-- hex texts (false on every exception), Pydantic's parsing of a body into the declared fields (none
-- on a ValidationError, unknown fields included), and the class `\w` of `re`.
pub record Host (fl : Float) : Type 1 where
  pub Bytes : Type 0
  pub ed25519 : Bytes → String → String → Bool
  pub parse : Bytes → Option (Batch fl)
  pub is_word : ℕ → Bool

-- `time.monotonic_ns()`, `time.time_ns()` and `datetime.now(utc)` in microseconds
pub record Clock : Type 0 where
  pub monotonic_ns : ℕ
  pub wall_ns : ℕ
  pub utc : ℕ

module _ (fl : Float) where
  -- `app.state`; `scheduled` are the webhook dispatches given to the event loop
  pub record Gateway : Type 0 where
    pub repo : Repository fl
    pub detector : Detector fl
    pub scorer : Scorer
    pub private_detectors : Dict String (Detector fl)
    pub scheduled : List (DriftNotification fl × WebhookConfig)

  -- CUSUMDetector(h=5.0, k=0.5, baseline_samples=30)
  abbrev pub gateway_detector : Detector fl
  gateway_detector = record { h = fl.lit 5 1; k = fl.lit 1 2; baseline_samples = 30; states = [] }

  -- `lifespan` before the bootstrap, over an in-memory scorer
  abbrev pub startup : Repository fl → Gateway
  startup repo = record {
    repo = repo;
    detector = gateway_detector;
    scorer = Scorer.default_scorer;
    private_detectors = [];
    scheduled = [];
  }

  pub record AlertEntry : Type 0 where
    pub model_tuple : String
    pub metric_name : String
    pub direction : Direction
    pub cusum_score : fl.Value
    pub threshold : fl.Value
    pub window_count : ℕ

  unfoldable pub entry : DriftAlert fl → AlertEntry
  entry a = record {
    model_tuple = a.model_tuple;
    metric_name = a.metric_name;
    direction = a.direction;
    cusum_score = fl.round a.cusum_score 6;
    threshold = a.threshold;
    window_count = a.window_count;
  }

  -- The candidate that a local alert of one client is for the scorer.
  abbrev pub candidate : Batch fl → DriftAlert fl → Scorer.ChangePointResult fl.Value
  candidate batch a = record {
    model_tuple = a.model_tuple;
    change_detected = true;
    score = a.cusum_score;
    threshold = a.threshold;
    contributing_orgs = batch.client_id ∷ [];
    metric_name = a.metric_name;
    timestamp_ns = 0;
    suite_version = a.suite_version;
  }

  -- The end of the public branch: `org_count` and the scorer after the promotion.
  unfoldable pub publish : Clock → DriftAlert fl → Gateway → Option ℕ × Scorer → Gateway
  publish clock a g (none, scorer) = record g { scorer = scorer }
  publish clock a g (some org_count, scorer) = record g {
    repo = Repository.save_public_alert fl g.repo a.model_tuple a.metric_name org_count clock.utc;
    scorer = Scorer.clear scorer a.model_tuple a.metric_name a.suite_version;
  }

  unfoldable pub raise_public : Clock → Batch fl → Gateway → DriftAlert fl → Gateway
  unfolding publish
  raise_public clock batch g a =
      let repo = Repository.save_local_alert fl g.repo a batch.client_id none clock.utc in
      let scorer = Scorer.ingest g.scorer (candidate batch a) clock.wall_ns in
      publish clock a (record g { repo = repo })
        (Scorer.promote_to_public_alert scorer a.model_tuple a.metric_name clock.wall_ns
          a.suite_version)

  -- The alerts are none once an update has raised.
  abbrev Progress : Type 0
  Progress = Gateway × Option (List AlertEntry)

  abbrev pub add_entry : Option (List AlertEntry) → AlertEntry → Option (List AlertEntry)
  add_entry none e = none
  add_entry (some alerts) e = some (alerts ++ e ∷ [])

  -- An exception ends the handler with the state as it is.
  abbrev pub stop_if : Bool → Progress → Progress
  stop_if failed p = (p.0, if failed then none else p.1)

  unfoldable pub after_public : Clock → Batch fl → Option (DriftAlert fl) → Progress → Progress
  unfolding raise_public entry
  after_public clock batch none p = p
  after_public clock batch (some a) (g, alerts) =
      (raise_public clock batch g a, add_entry alerts (entry a))

  -- One turn of the public loop over `batch.metrics`.
  unfoldable pub public_metric : Clock → Batch fl → Progress → String × fl.Value → Progress
  unfolding after_public
  public_metric clock batch (g, alerts) (metric_name, value) =
      let scorer =
        Scorer.observe g.scorer batch.model_tuple metric_name batch.client_id none
          batch.suite_version clock.wall_ns in
      let (alert, detector) =
        Detector.update fl g.detector batch.model_tuple metric_name value clock.monotonic_ns
          batch.suite_version in
      let key : Triple = (batch.model_tuple, batch.suite_version, metric_name) in
      stop_if (Detector.overflowed fl (Detector.state_of fl detector key))
        (after_public clock batch alert (record g { scorer = scorer; detector = detector }, alerts))

  unfoldable pub public_metrics : Clock → Batch fl → Progress → List (String × fl.Value) → Progress
  unfolding public_metric
  public_metrics clock batch p [] = p
  public_metrics clock batch p (m ∷ ms) =
      let q = public_metric clock batch p m in
      let rest = public_metrics clock batch q ms in elim q.1 [ none ↦ q | some _ ↦ rest ]

  unfoldable pub schedule :
      Clock → String → DriftAlert fl → Option WebhookConfig → Gateway → Gateway
  schedule clock fleet_id a none g = g
  schedule clock fleet_id a (some config) g = record g {
    scheduled =
        g.scheduled
        ++ (
          record {
            model_tuple = a.model_tuple;
            metric_name = a.metric_name;
            alert_value = a.cusum_score;
            timestamp = clock.utc;
            fleet_id = fleet_id;
          },
          config,
        )
          ∷ [];
  }

  unfoldable pub after_private :
      Clock → Batch fl → String → Option (DriftAlert fl) → Progress → Progress
  unfolding schedule entry
  after_private clock batch fleet_id none p = p
  after_private clock batch fleet_id (some a) (g, alerts) =
      let repo =
        Repository.save_local_alert fl g.repo a batch.client_id (some fleet_id) clock.utc in
      (
        schedule clock fleet_id a (Repository.get_webhook fl repo fleet_id)
            (record g { repo = repo }),
        add_entry alerts (entry a),
      )

  abbrev pub fleet_detector : Gateway → String → Detector fl
  fleet_detector g fleet_id = or_default gateway_detector (get fleet_id g.private_detectors)

  unfoldable pub private_metric :
      Clock → Batch fl → String → Progress → String × fl.Value → Progress
  unfolding after_private
  private_metric clock batch fleet_id (g, alerts) (metric_name, value) =
      let (alert, detector) =
        Detector.update fl (fleet_detector g fleet_id) batch.model_tuple metric_name value
          clock.monotonic_ns batch.suite_version in
      let key : Triple = (batch.model_tuple, batch.suite_version, metric_name) in
      stop_if (Detector.overflowed fl (Detector.state_of fl detector key)) (
        after_private clock batch fleet_id alert
          (record g { private_detectors = put fleet_id detector g.private_detectors }, alerts))

  unfoldable pub private_metrics :
      Clock → Batch fl → String → Progress → List (String × fl.Value) → Progress
  unfolding private_metric
  private_metrics clock batch fleet_id p [] = p
  private_metrics clock batch fleet_id p (m ∷ ms) =
      let q = private_metric clock batch fleet_id p m in
      let rest = private_metrics clock batch fleet_id q ms in elim q.1 [ none ↦ q | some _ ↦ rest ]

  -- The routing by `fleet_id`; a fleet's detector is created on its first batch.
  unfoldable pub route : Clock → Batch fl → Option String → Gateway → Progress
  unfolding public_metrics private_metrics
  route clock batch none g = public_metrics clock batch (g, some []) batch.metrics
  route clock batch (some fleet_id) g =
      let detectors = put fleet_id (fleet_detector g fleet_id) g.private_detectors in
      private_metrics clock batch fleet_id (record g { private_detectors = detectors }, some [])
        batch.metrics

  -- 202, 401, 422, 409 and 500
  pub data Response : Type 0 where
    accepted : String → ℕ → List AlertEntry → Response
    unauthorized : Response
    unprocessable : Response
    conflict : String → Response
    server_error : Response

  -- After the routing: the batch is stored in either case.
  abbrev pub answer : Batch fl → Option (List AlertEntry) → Response
  answer batch none = server_error
  answer batch (some alerts) = accepted batch.batch_id batch.result_count alerts

  -- The handler from `has_batch` on.
  unfoldable pub admit : Clock → Batch fl → Gateway → Response × Gateway
  unfolding route
  admit clock batch g =
      if Repository.has_batch fl g.repo batch.batch_id
      then (conflict batch.batch_id, g)
      else let (g', alerts) =
          route clock batch batch.fleet_id
            (record g { repo = Repository.save_batch fl g.repo batch clock.utc }) in
        (answer batch alerts, g')

  unfoldable pub after_validation : Clock → Batch fl → Gateway → Validation → Response × Gateway
  unfolding admit
  after_validation clock batch g valid = admit clock batch g
  after_validation clock batch g invalid = (unprocessable, g)
  after_validation clock batch g raised = (server_error, g)

  module _ (host : Host fl) where
    -- An empty signature or key is refused before any cryptography.
    unfoldable pub verify_signature : host.Bytes → String → String → Bool
    verify_signature payload signature_hex public_key_hex =
        if either (signature_hex == "") (public_key_hex == "")
        then false
        else host.ed25519 payload signature_hex public_key_hex

    unfoldable pub after_parsing : Clock → Gateway → Option (Batch fl) → Response × Gateway
    unfolding after_validation validate
    after_parsing clock g none = (unprocessable, g)
    after_parsing clock g (some batch) =
        after_validation clock batch g (validate fl host.is_word batch)

    unfoldable pub ingest_signals :
        Clock → Gateway → host.Bytes → String → String → Response × Gateway
    unfolding verify_signature after_parsing
    ingest_signals clock g raw_bytes x_signature x_public_key =
        if verify_signature raw_bytes x_signature x_public_key
        then after_parsing clock g (host.parse raw_bytes)
        else (unauthorized, g)
