-- ===== src/Gateway/Backed.antt =====
-- Every public alert that gateway/main.py saves stands on a quorum of orgs.
use seismograph.Prelude.{
  Triple, ℕ, ◌≤◌, ◌≡◌, refl, ◌∙◌, sym, ap, String, Option, none, some, List, [], ◌∷◌, ◌++◌, All,
  inl, inr, arith,
}
use mathlib.Core.Path.{subst}
use seismograph.Float.{Float}
use seismograph.Schema.{Batch}
use seismograph.Detector
use seismograph.Detector.{DriftAlert}
use seismograph.Quorum.Bounds.{required_quorum-ge}
use seismograph.Prelude.Int.{pos}
use seismograph.Scorer
use seismograph.Scorer.{Scorer, ChangePointResult, promote_to_public_alert, ingest_org, ingest_orgs}
use seismograph.Scorer.Gate.{promote_cases, promote-outcome, population}
use seismograph.Repository.{PublicDriftAlert, save_batch, save_local_alert, save_public_alert}
use seismograph.Gateway.{
  Gateway, Clock, Host, Progress, candidate, public_metric, after_public, raise_public, publish,
  route,
}
use seismograph.Gateway.Loop.{Admitted, saved, ingest-Outcome, public_metrics-keeps}
use seismograph.Gateway.Store.{Request, handle}
use seismograph.Gateway.Fleet.{fleet_batch_isolated}

module _ {R : Type 0} (result : ChangePointResult R) (ts now : ℕ) where
  ingest_org-floor : (s : Scorer) (org : String) → (ingest_org s result ts now org).floor ≡ s.floor
  unfolding ingest_org
  ingest_org-floor s org = ground arith

  ingest_orgs-floor :
      (s : Scorer) (orgs : List String) → (ingest_orgs s result ts now orgs).floor ≡ s.floor
  unfolding ingest_orgs
  ingest_orgs-floor s [] = refl
  ingest_orgs-floor s (org ∷ orgs) =
      ingest_orgs-floor (ingest_org s result ts now org) orgs ∙ ingest_org-floor s org

-- A promotion returns no count below the floor, and keeps the floor.
promote-floor :
    (s : Scorer) (mt metric : String) (now : ℕ) (suite : String)
    → (promote_to_public_alert s mt metric now suite).1.floor ≡ s.floor
unfolding Scorer.clear
promote-floor s mt metric now suite = elim (promote_cases s mt metric now suite) [
  | inl e ↦ ap (λ r. r.1.floor) e
  | inr e ↦ ap (λ r. r.1.floor) e
]

promote-ge :
    (s : Scorer) (mt metric : String) (now : ℕ) (suite : String) (n : ℕ)
    → (promote_to_public_alert s mt metric now suite).0 ≡ some n
    → s.floor ≤ n
promote-ge s mt metric now suite n e =
    let k : Triple = (mt, suite, metric) in
    ground (
      arith,
      e,
      promote-outcome s mt metric now suite,
      required_quorum-ge (pos (population s k now)) s.floor s.frac_num s.frac_den,
    )

All-snoc :
    {A : Type 0} (P : A → Type 0) (xs : List A) (x : A) → All P xs → P x → All P (xs ++ x ∷ [])
All-snoc P [] x h p = (p, tt)
All-snoc P (y ∷ xs) x h p = (h.0, All-snoc P xs x h.1 p)

module _ (fl : Float) (floor : ℕ) where
  -- The row was saved with at least the floor's number of orgs.
  abbrev pub Reached : PublicDriftAlert → Type 0
  Reached row = floor ≤ row.contributing_org_count

  -- The scorer has the floor, and every public alert has reached it.
  pub record Backed (g : Gateway fl) : Type 0 where
    pub floor_kept : g.scorer.floor ≡ floor
    pub reached : All Reached g.repo.public_alerts

  module _ (clock : Clock) (batch : Batch fl) where
    publish-Backed :
        (g : Gateway fl) (a : DriftAlert fl) (r : Option ℕ × Scorer)
        → ((n : ℕ) → r.0 ≡ some n → floor ≤ n)
        → r.1.floor ≡ floor
        → All Reached g.repo.public_alerts
        → Backed (publish fl clock a g r)
    unfolding publish save_public_alert Scorer.clear
    publish-Backed g a (none, s) ge kept h = record { floor_kept = kept; reached = h }
    publish-Backed g a (some n, s) ge kept h = record {
      floor_kept = kept;
      reached = All-snoc Reached g.repo.public_alerts _ h (ge n refl);
    }

    after_public-Backed :
        (o : Option (DriftAlert fl)) (p : Progress fl)
        → Backed p.0
        → Backed (after_public fl clock batch o p).0
    unfolding after_public raise_public save_local_alert Scorer.ingest
    after_public-Backed none p b = b
    after_public-Backed (some a) (g, alerts) b =
        let s = Scorer.ingest g.scorer (candidate fl batch a) clock.wall_ns in
        let kept : s.floor ≡ floor =
          (ingest_orgs-floor (candidate fl batch a) (Scorer.stamp (some 0) clock.wall_ns)
              clock.wall_ns g.scorer (batch.client_id ∷ [])
            ∙ b.floor_kept) in
        publish-Backed
          (record g { repo = save_local_alert fl g.repo a batch.client_id none clock.utc }) a
          (promote_to_public_alert s a.model_tuple a.metric_name clock.wall_ns a.suite_version)
          (λ n e.
            subst (λ q. q ≤ n) kept
              (promote-ge s a.model_tuple a.metric_name clock.wall_ns a.suite_version n e))
          (promote-floor s a.model_tuple a.metric_name clock.wall_ns a.suite_version ∙ kept)
          b.reached

    public_metric-Backed :
        (p : Progress fl) (m : String × fl.Value)
        → Backed p.0
        → Backed (public_metric fl clock batch p m).0
    unfolding public_metric Scorer.observe
    public_metric-Backed p m b =
        let (alert, detector) =
          Detector.update fl p.0.detector batch.model_tuple m.0 m.1 clock.monotonic_ns
            batch.suite_version in
        let scorer =
          Scorer.observe p.0.scorer batch.model_tuple m.0 batch.client_id none batch.suite_version
            clock.wall_ns in
        after_public-Backed alert (record p.0 { scorer = scorer; detector = detector }, p.1)
          (record { floor_kept = b.floor_kept; reached = b.reached })

    route-Backed :
        (g : Gateway fl) → Backed g → Backed (route fl clock batch none (saved fl clock batch g)).0
    unfolding route save_batch
    route-Backed g b =
        public_metrics-keeps fl clock batch (λ p. Backed p.0) public_metric-Backed
          (saved fl clock batch g, some []) batch.metrics
          (record { floor_kept = b.floor_kept; reached = b.reached })

  module _ (host : Host fl) where
    Admitted-Backed :
        (g : Gateway fl) (r : Request fl host)
        → (a : Admitted fl host r.clock g r.body r.signature r.public_key (handle fl host g r))
        → (fleet_id : Option String) → a.batch.fleet_id ≡ fleet_id
        → Backed g
        → Backed (handle fl host g r).1
    Admitted-Backed g r a none own b = rw a.result (
        subst (λ o. Backed (route fl r.clock a.batch o (saved fl r.clock a.batch g)).0) (sym own)
          (route-Backed r.clock a.batch g b))
    Admitted-Backed g r a (some fleet) own b =
        let apart = fleet_batch_isolated fl host g r a.batch fleet a.parsed own in
        record {
          floor_kept = ap (λ s. s.floor) apart.same_scorer ∙ b.floor_kept;
          reached = subst (All Reached) (sym apart.same_public) b.reached;
        }

    -- While every public alert stored so far counts at least as many orgs as the scorer's quorum
    -- floor, no request changes that, and none changes the floor.
    pub handle-Backed :
        (g : Gateway fl) (r : Request fl host) → Backed g → Backed (handle fl host g r).1
    handle-Backed g r b = elim (ingest-Outcome fl host r.clock g r.body r.signature r.public_key) [
      | inl (_, same) ↦ rw same b
      | inr a ↦ Admitted-Backed g r a a.batch.fleet_id refl b
    ]
