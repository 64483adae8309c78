-- ===== src/Gateway/Fleet.antt =====
-- The private path of gateway/main.py `ingest_signals` beside the public one: what each one touches.
use mathlib.Core.Path.{subst, sym}
use seismograph.Prelude.{
  ℕ, ◌≡◌, refl, ap, String, false, Option, none, some, [], ◌==◌, string_eq, inl, inr,
}
use seismograph.Dict.{get, put, get-put}
use seismograph.Float.{Float}
use seismograph.Schema.{Batch}
use seismograph.Detector
use seismograph.Detector.{DriftAlert}
use seismograph.Scorer
use seismograph.Repository.{
  WebhookConfig, get_webhook, save_batch, save_local_alert, save_public_alert,
}
use seismograph.Gateway.{
  Gateway, Clock, Host, Progress, public_metric, private_metric, after_public, after_private,
  raise_public, publish, schedule, route, fleet_detector,
}
use seismograph.Gateway.Loop.{saved, ingest-Outcome, public_metrics-keeps, private_metrics-keeps}
use seismograph.Gateway.Store.{Request, handle}

module _ (fl : Float) where
  -- The second gateway differs from the first in what belongs to one fleet.
  pub record SameButFleet (fleet : String) (g h : Gateway fl) : Type 0 where
    pub same_detector : h.detector ≡ g.detector
    pub same_scorer : h.scorer ≡ g.scorer
    pub same_public : h.repo.public_alerts ≡ g.repo.public_alerts
    pub same_webhooks : h.repo.webhooks ≡ g.repo.webhooks
    pub other_fleets :
        (other : String)
        → (fleet == other) ≡ false
        → get other h.private_detectors ≡ get other g.private_detectors

  -- The second gateway has the same fleets' detectors and webhook dispatches as the first.
  pub record SameFleets (g h : Gateway fl) : Type 0 where
    pub same_detectors : h.private_detectors ≡ g.private_detectors
    pub same_dispatches : h.scheduled ≡ g.scheduled
    pub same_webhooks : h.repo.webhooks ≡ g.repo.webhooks

  module _ (clock : Clock) (batch : Batch fl) (g : Gateway fl) where
    schedule-SameButFleet :
        (fleet : String) (a : DriftAlert fl) (o : Option WebhookConfig) (h : Gateway fl)
        → SameButFleet fleet g h
        → SameButFleet fleet g (schedule fl clock fleet a o h)
    unfolding schedule
    schedule-SameButFleet fleet a none h s = s
    schedule-SameButFleet fleet a (some w) h s = record {
      same_detector = s.same_detector;
      same_scorer = s.same_scorer;
      same_public = s.same_public;
      same_webhooks = s.same_webhooks;
      other_fleets = s.other_fleets;
    }

    after_private-SameButFleet :
        (fleet : String) (o : Option (DriftAlert fl)) (p : Progress fl)
        → SameButFleet fleet g p.0
        → SameButFleet fleet g (after_private fl clock batch fleet o p).0
    unfolding after_private save_local_alert
    after_private-SameButFleet fleet none p s = s
    after_private-SameButFleet fleet (some a) (h, alerts) s =
        let repo = save_local_alert fl h.repo a batch.client_id (some fleet) clock.utc in
        schedule-SameButFleet fleet a (get_webhook fl repo fleet) (record h { repo = repo })
          (record {
            same_detector = s.same_detector;
            same_scorer = s.same_scorer;
            same_public = s.same_public;
            same_webhooks = s.same_webhooks;
            other_fleets = s.other_fleets;
          })

    put-SameButFleet :
        (fleet : String) (h : Gateway fl) (d : Detector.Detector fl)
        → SameButFleet fleet g h
        → SameButFleet fleet g (record h { private_detectors = put fleet d h.private_detectors })
    put-SameButFleet fleet h d s = record {
      same_detector = s.same_detector;
      same_scorer = s.same_scorer;
      same_public = s.same_public;
      same_webhooks = s.same_webhooks;
      other_fleets =
          λ other ne. rw (get-put fleet other d h.private_detectors, ne) (s.other_fleets other ne);
    }

    private_metric-SameButFleet :
        (fleet : String) (p : Progress fl) (m : String × fl.Value)
        → SameButFleet fleet g p.0
        → SameButFleet fleet g (private_metric fl clock batch fleet p m).0
    unfolding private_metric
    private_metric-SameButFleet fleet p m s =
        after_private-SameButFleet fleet _ _ (put-SameButFleet fleet p.0 _ s)

    publish-SameFleets :
        (a : DriftAlert fl) (h : Gateway fl) (r : Option ℕ × Scorer.Scorer)
        → SameFleets g h
        → SameFleets g (publish fl clock a h r)
    unfolding publish save_public_alert
    publish-SameFleets a h (none, sc) s = record {
      same_detectors = s.same_detectors;
      same_dispatches = s.same_dispatches;
      same_webhooks = s.same_webhooks;
    }
    publish-SameFleets a h (some n, sc) s = record {
      same_detectors = s.same_detectors;
      same_dispatches = s.same_dispatches;
      same_webhooks = s.same_webhooks;
    }

    after_public-SameFleets :
        (o : Option (DriftAlert fl)) (p : Progress fl)
        → SameFleets g p.0
        → SameFleets g (after_public fl clock batch o p).0
    unfolding after_public raise_public save_local_alert
    after_public-SameFleets none p s = s
    after_public-SameFleets (some a) (h, alerts) s =
        publish-SameFleets a
          (record h { repo = save_local_alert fl h.repo a batch.client_id none clock.utc }) _
          (record {
            same_detectors = s.same_detectors;
            same_dispatches = s.same_dispatches;
            same_webhooks = s.same_webhooks;
          })

    public_metric-SameFleets :
        (p : Progress fl) (m : String × fl.Value)
        → SameFleets g p.0
        → SameFleets g (public_metric fl clock batch p m).0
    unfolding public_metric
    public_metric-SameFleets p m s =
        let scorer =
          Scorer.observe p.0.scorer batch.model_tuple m.0 batch.client_id none batch.suite_version
            clock.wall_ns in
        let (alert, detector) =
          Detector.update fl p.0.detector batch.model_tuple m.0 m.1 clock.monotonic_ns
            batch.suite_version in
        after_public-SameFleets alert (record p.0 { scorer = scorer; detector = detector }, p.1)
          (record {
            same_detectors = s.same_detectors;
            same_dispatches = s.same_dispatches;
            same_webhooks = s.same_webhooks;
          })

    route_fleet :
        (fleet : String)
        → SameButFleet fleet g (route fl clock batch (some fleet) (saved fl clock batch g)).0
    unfolding route save_batch
    route_fleet fleet =
        private_metrics-keeps fl clock batch (λ p. SameButFleet fleet g p.0) fleet
          (private_metric-SameButFleet fleet) _ batch.metrics
          (put-SameButFleet fleet (saved fl clock batch g)
            (fleet_detector fl (saved fl clock batch g) fleet)
            (record {
              same_detector = refl;
              same_scorer = refl;
              same_public = refl;
              same_webhooks = refl;
              other_fleets = λ other ne. refl;
            }))

    route_public : SameFleets g (route fl clock batch none (saved fl clock batch g)).0
    unfolding route save_batch
    route_public =
        public_metrics-keeps fl clock batch (λ p. SameFleets g p.0) public_metric-SameFleets
          (saved fl clock batch g, some []) batch.metrics
          (record { same_detectors = refl; same_dispatches = refl; same_webhooks = refl })

  module _ (host : Host fl) (g : Gateway fl) (r : Request fl host) (batch : Batch fl) where
    refused_fleet : (fleet : String) {h : Gateway fl} → h ≡ g → SameButFleet fleet g h
    refused_fleet fleet e = record {
      same_detector = ap (λ x. x.detector) e;
      same_scorer = ap (λ x. x.scorer) e;
      same_public = ap (λ x. x.repo.public_alerts) e;
      same_webhooks = ap (λ x. x.repo.webhooks) e;
      other_fleets = λ other ne. ap (λ x. get other x.private_detectors) e;
    }

    refused_public : {h : Gateway fl} → h ≡ g → SameFleets g h
    refused_public e = record {
      same_detectors = ap (λ x. x.private_detectors) e;
      same_dispatches = ap (λ x. x.scheduled) e;
      same_webhooks = ap (λ x. x.repo.webhooks) e;
    }

    -- A request whose body is a batch of a fleet, whatever its signature and its contents, leaves
    -- the public detector, the scorer, the public alerts, the webhooks and the detectors of all
    -- other fleets as they were.
    pub fleet_batch_isolated :
        (fleet : String)
        → host.parse r.body ≡ some batch
        → batch.fleet_id ≡ some fleet
        → SameButFleet fleet g (handle fl host g r).1
    fleet_batch_isolated fleet parsed private =
        elim (ingest-Outcome fl host r.clock g r.body r.signature r.public_key) [
          | inl (_, same) ↦ refused_fleet fleet same
          | inr a ↦
              let own : a.batch.fleet_id ≡ some fleet = cc (a.parsed, parsed, private) in
              rw a.result (
                subst
                  (λ o.
                    SameButFleet fleet g
                      (route fl r.clock a.batch o (saved fl r.clock a.batch g)).0)
                  (sym own) (route_fleet r.clock a.batch g fleet))
        ]

    -- A request whose body is a batch without a fleet leaves the fleets' detectors, the webhooks and
    -- the scheduled webhook dispatches as they were.
    pub public_batch_isolated :
        host.parse r.body ≡ some batch → batch.fleet_id ≡ none → SameFleets g (handle fl host g r).1
    public_batch_isolated parsed public =
        elim (ingest-Outcome fl host r.clock g r.body r.signature r.public_key) [
          | inl (_, same) ↦ refused_public same
          | inr a ↦
              let own : a.batch.fleet_id ≡ none = cc (a.parsed, parsed, public) in
              rw a.result (
                subst
                  (λ o. SameFleets g (route fl r.clock a.batch o (saved fl r.clock a.batch g)).0)
                  (sym own) (route_public r.clock a.batch g))
        ]
