-- ===== src/Gateway/Public.antt =====
-- The public alerts of gateway/main.py: how many orgs stand behind each of them.
use seismograph.Prelude.{
  ℕ, ◌<◌, ◌≡◌, refl, ◌∙◌, String, Triple, true, Option, none, some, List, [], ◌∷◌, string_eq, All,
  inl, inr, length,
}
use mathlib.Core.Path.{subst, sym}
use seismograph.Dict.Keys.{contains}
use seismograph.Float.{Float}
use seismograph.Schema.{Batch}
use seismograph.Quorum.{quorum_floor}
use seismograph.Detector
use seismograph.Detector.{DriftAlert}
use seismograph.Scorer
use seismograph.Scorer.{Scorer, promote_to_public_alert}
use seismograph.Scorer.History.{step, ingests}
use seismograph.Scorer.Sybil.{Confined, step-Confined, promote-Confined, promote-Confined-none}
use seismograph.Repository.{PublicDriftAlert, Repository, save_batch, save_local_alert}
use seismograph.Gateway.{
  verify_signature, Gateway, Clock, Host, Progress, candidate, public_metric, after_public,
  raise_public, publish, route, startup,
}
use seismograph.Gateway.Loop.{Admitted, saved, ingest-Outcome, public_metrics-keeps}
use seismograph.Gateway.Store.{Request, handle, serve}
use seismograph.Gateway.Fleet.{fleet_batch_isolated}

module _ (fl : Float) (host : Host fl) (orgs : List String) where
  -- Every signed batch for the public network that the request can carry is of a listed client.
  abbrev pub FromListed : Request fl host → Type 0
  FromListed r =
      (b : Batch fl)
      → verify_signature fl host r.body r.signature r.public_key ≡ true
      → host.parse r.body ≡ some b
      → b.fleet_id ≡ none
      → contains b.client_id orgs ≡ true

module _ (fl : Float) (orgs : List String) (few : length orgs < quorum_floor)
    (rows : List PublicDriftAlert) where
  -- Candidates come from the listed orgs only, and the public alerts are the given rows.
  record Quiet (g : Gateway fl) : Type 0 where
    confined : (k : Triple) → Confined orgs k quorum_floor g.scorer
    silent : g.repo.public_alerts ≡ rows

  module _ (clock : Clock) (batch : Batch fl) (known : contains batch.client_id orgs ≡ true) where
    observe-Quiet :
        (g : Gateway fl) (d : Detector.Detector fl) (metric : String)
        → Quiet g
        → Quiet (record g {
          scorer =
              Scorer.observe g.scorer batch.model_tuple metric batch.client_id none
                batch.suite_version clock.wall_ns;
          detector = d;
        })
    unfolding Scorer.observe
    observe-Quiet g d metric q = record {
      confined = λ k. let c = q.confined k in record { only = c.only; floor_kept = c.floor_kept };
      silent = q.silent;
    }

    publish-Quiet :
        (g : Gateway fl) (a : DriftAlert fl) (r : Option ℕ × Scorer)
        → r.0 ≡ none
        → ((k : Triple) → Confined orgs k quorum_floor r.1)
        → g.repo.public_alerts ≡ rows
        → Quiet (publish fl clock a g r)
    unfolding publish
    publish-Quiet g a (none, s) e c p = record { confined = c; silent = p }
    publish-Quiet g a (some n, s) e c p = absurd cc

    after_public-Quiet :
        (o : Option (DriftAlert fl)) (p : Progress fl)
        → Quiet p.0
        → Quiet (after_public fl clock batch o p).0
    unfolding after_public raise_public save_local_alert Scorer.ingest step
    after_public-Quiet none p q = q
    after_public-Quiet (some a) (g, alerts) q =
        let s = Scorer.ingest g.scorer (candidate fl batch a) clock.wall_ns in
        let c : (k : Triple) → Confined orgs k quorum_floor s = (λ k.
          step-Confined orgs k quorum_floor g.scorer clock.wall_ns (ingests (candidate fl batch a))
            (λ here fired. (known, tt)) (q.confined k)) in
        publish-Quiet
          (record g { repo = save_local_alert fl g.repo a batch.client_id none clock.utc }) a
          (promote_to_public_alert s a.model_tuple a.metric_name clock.wall_ns a.suite_version)
          (promote-Confined-none orgs s a.model_tuple a.metric_name a.suite_version quorum_floor
            clock.wall_ns (c _) few)
          (λ k.
            promote-Confined orgs k quorum_floor s a.model_tuple a.metric_name clock.wall_ns
              a.suite_version (c k))
          q.silent

    public_metric-Quiet :
        (p : Progress fl) (m : String × fl.Value)
        → Quiet p.0
        → Quiet (public_metric fl clock batch p m).0
    unfolding public_metric
    public_metric-Quiet p m q =
        let (alert, detector) =
          Detector.update fl p.0.detector batch.model_tuple m.0 m.1 clock.monotonic_ns
            batch.suite_version in
        let scorer =
          Scorer.observe p.0.scorer batch.model_tuple m.0 batch.client_id none batch.suite_version
            clock.wall_ns in
        after_public-Quiet alert (record p.0 { scorer = scorer; detector = detector }, p.1)
          (observe-Quiet p.0 detector m.0 q)

    route-Quiet :
        (g : Gateway fl) → Quiet g → Quiet (route fl clock batch none (saved fl clock batch g)).0
    unfolding route save_batch
    route-Quiet g q =
        public_metrics-keeps fl clock batch (λ p. Quiet p.0) public_metric-Quiet
          (saved fl clock batch g, some []) batch.metrics
          (record { confined = q.confined; silent = q.silent })

  same-Quiet :
      {g h : Gateway fl}
      → h.scorer ≡ g.scorer
      → h.repo.public_alerts ≡ g.repo.public_alerts
      → Quiet g
      → Quiet h
  same-Quiet {g} {h} e p q = record {
    confined = λ k. subst (Confined orgs k quorum_floor) (sym e) (q.confined k);
    silent = p ∙ q.silent;
  }

  module _ (host : Host fl) where
    Admitted-Quiet :
        (g : Gateway fl) (r : Request fl host)
        → (a : Admitted fl host r.clock g r.body r.signature r.public_key (handle fl host g r))
        → (fleet_id : Option String) → a.batch.fleet_id ≡ fleet_id
        → FromListed fl host orgs r
        → Quiet g
        → Quiet (handle fl host g r).1
    Admitted-Quiet g r a none own from q = rw a.result (
        subst (λ o. Quiet (route fl r.clock a.batch o (saved fl r.clock a.batch g)).0) (sym own)
          (route-Quiet r.clock a.batch (from a.batch a.verified a.parsed own) g q))
    Admitted-Quiet g r a (some fleet) own from q =
        let apart = fleet_batch_isolated fl host g r a.batch fleet a.parsed own in
        same-Quiet apart.same_scorer apart.same_public q

    handle-Quiet :
        (g : Gateway fl) (r : Request fl host)
        → FromListed fl host orgs r
        → Quiet g
        → Quiet (handle fl host g r).1
    handle-Quiet g r from q =
        elim (ingest-Outcome fl host r.clock g r.body r.signature r.public_key) [
          | inl (_, same) ↦ rw same q
          | inr a ↦ Admitted-Quiet g r a a.batch.fleet_id refl from q
        ]

    serve-Quiet :
        (g : Gateway fl) (rs : List (Request fl host))
        → All (FromListed fl host orgs) rs
        → Quiet g
        → Quiet (serve fl host g rs)
    unfolding serve
    serve-Quiet g [] from q = q
    serve-Quiet g (r ∷ rs) from q =
        serve-Quiet (handle fl host g r).1 rs from.1 (handle-Quiet g r from.0 q)

-- Whatever the detector knows at the start.
pub serve_quietly :
    (fl : Float) (host : Host fl) (repo : Repository fl) (detector : Detector.Detector fl)
    (orgs : List String) (rs : List (Request fl host))
    → length orgs < quorum_floor
    → All (FromListed fl host orgs) rs
    → (serve fl host (record (startup fl repo) { detector = detector }) rs).repo.public_alerts
      ≡ repo.public_alerts
serve_quietly fl host repo detector orgs rs few from =
    (serve-Quiet fl orgs few repo.public_alerts host
      (record (startup fl repo) { detector = detector }) rs from
      (record {
        confined = λ k. record { only = (tt, tt); floor_kept = refl };
        silent = refl;
      })).silent

-- A gateway that starts with empty detectors and an empty scorer never saves a public alert while
-- all signed batches for the public network come from fewer distinct clients than the quorum floor:
-- whatever they report, in whatever order, and whatever fleets send meanwhile.
pub serve_below_floor :
    (fl : Float) (host : Host fl) (repo : Repository fl) (orgs : List String)
    (rs : List (Request fl host))
    → length orgs < quorum_floor
    → All (FromListed fl host orgs) rs
    → (serve fl host (startup fl repo) rs).repo.public_alerts ≡ repo.public_alerts
serve_below_floor fl host repo orgs rs few from =
    serve_quietly fl host repo (startup fl repo).detector orgs rs few from
