-- ===== src/Gateway/Store.antt =====
-- The stored batches of gateway/main.py: each batch_id at most once, whatever is sent or re-sent.
use mathlib.Core.List.{map-append}
use seismograph.Prelude.{
  ℕ, ◌≡◌, refl, ◌∙◌, ap, ◌⊎◌, inl, inr, String, true, false, Option, none, some, List, [], ◌∷◌,
  ◌++◌, map, arith, string_eq, beq_refl,
}
use seismograph.Dict.Keys.{contains, Distinct, contains-append, Distinct-snoc}
use seismograph.Float.{Float}
use seismograph.Schema.{Batch}
use seismograph.Detector.{DriftAlert}
use seismograph.Scorer.{Scorer}
use seismograph.Repository.{
  WebhookConfig, save_batch, save_local_alert, save_public_alert, has_batch,
}
use seismograph.Gateway.{
  Gateway, Clock, Host, Response, Progress, public_metric, private_metric, after_public,
  after_private, raise_public, publish, schedule, route, ingest_signals,
}
use seismograph.Gateway.Loop.{
  IsRefusal, Admitted, saved, ingest-Outcome, public_metrics-keeps, private_metrics-keeps,
}

module _ (fl : Float) where
  abbrev pub batch_ids : Gateway fl → List String
  batch_ids g = map (λ s. s.batch_id) g.repo.signals

  module _ (clock : Clock) (batch : Batch fl) where
    publish-signals :
        (a : DriftAlert fl) (g : Gateway fl) (r : Option ℕ × Scorer)
        → (publish fl clock a g r).repo.signals ≡ g.repo.signals
    unfolding publish save_public_alert
    publish-signals a g (none, s) = refl
    publish-signals a g (some c, s) = refl

    after_public-signals :
        (o : Option (DriftAlert fl)) (p : Progress fl)
        → (after_public fl clock batch o p).0.repo.signals ≡ p.0.repo.signals
    unfolding after_public raise_public save_local_alert
    after_public-signals none p = refl
    after_public-signals (some a) (g, alerts) =
        publish-signals a
          (record g { repo = save_local_alert fl g.repo a batch.client_id none clock.utc }) _

    schedule-signals :
        (fleet : String) (a : DriftAlert fl) (o : Option WebhookConfig) (g : Gateway fl)
        → (schedule fl clock fleet a o g).repo ≡ g.repo
    unfolding schedule
    schedule-signals fleet a none g = refl
    schedule-signals fleet a (some w) g = refl

    after_private-signals :
        (fleet : String) (o : Option (DriftAlert fl)) (p : Progress fl)
        → (after_private fl clock batch fleet o p).0.repo.signals ≡ p.0.repo.signals
    unfolding after_private save_local_alert
    after_private-signals fleet none p = refl
    after_private-signals fleet (some a) (g, alerts) =
        ap (λ r. r.signals) (schedule-signals fleet a _ _)

    -- Routing a batch to the detectors stores no further batch.
    pub route-signals :
        (fleet : Option String) (g : Gateway fl)
        → (route fl clock batch fleet g).0.repo.signals ≡ g.repo.signals
    unfolding route public_metric private_metric
    route-signals none g =
        public_metrics-keeps fl clock batch (λ p. p.0.repo.signals ≡ g.repo.signals)
          (λ p m h. after_public-signals _ _ ∙ h) (g, some []) batch.metrics refl
    route-signals (some fleet) g =
        private_metrics-keeps fl clock batch (λ p. p.0.repo.signals ≡ g.repo.signals) fleet
          (λ p m h. after_private-signals fleet _ _ ∙ h) _ batch.metrics refl

  saved-batch_ids :
      (clock : Clock) (batch : Batch fl) (g : Gateway fl)
      → batch_ids (saved fl clock batch g) ≡ batch_ids g ++ batch.batch_id ∷ []
  unfolding save_batch
  saved-batch_ids clock batch g = map-append (λ s. s.batch_id) g.repo.signals _

  new_id :
      (g : Gateway fl) (batch : Batch fl)
      → has_batch fl g.repo batch.batch_id ≡ false
      → contains batch.batch_id (batch_ids g) ≡ false
  unfolding has_batch
  new_id g batch h = h

  module _ (host : Host fl) where
    -- A request as the handler gets it, with the clocks at that moment.
    pub record Request : Type 0 where
      pub clock : Clock
      pub body : host.Bytes
      pub signature : String
      pub public_key : String

    abbrev pub handle : Gateway fl → Request → Response fl × Gateway fl
    handle g r = ingest_signals fl host r.clock g r.body r.signature r.public_key

    unfoldable pub serve : Gateway fl → List Request → Gateway fl
    serve g [] = g
    serve g (r ∷ rs) = serve (handle g r).1 rs

    Admitted-batch_ids :
        (g : Gateway fl) (r : Request)
        → (a : Admitted fl host r.clock g r.body r.signature r.public_key (handle g r))
        → batch_ids (handle g r).1 ≡ batch_ids g ++ a.batch.batch_id ∷ []
    Admitted-batch_ids g r a =
        ap (λ out. batch_ids out.1) a.result
        ∙ ap (map (λ s. s.batch_id))
            (route-signals r.clock a.batch a.batch.fleet_id (saved fl r.clock a.batch g))
        ∙ saved-batch_ids r.clock a.batch g

    -- What one request does to the stored batch_ids.
    pub handle-batch_ids :
        (g : Gateway fl) (r : Request)
        → ((handle g r).1 ≡ g)
          ⊎ ((id : String) × (contains id (batch_ids g) ≡ false)
              × (batch_ids (handle g r).1 ≡ batch_ids g ++ id ∷ []))
    handle-batch_ids g r = elim (ingest-Outcome fl host r.clock g r.body r.signature r.public_key) [
      | inl (_, same) ↦ inl same
      | inr a ↦ inr (a.batch.batch_id, new_id g a.batch a.is_new, Admitted-batch_ids g r a)
    ]

    -- From a gateway that stores no batch_id twice, no sequence of requests stores one twice.
    pub serve-Distinct :
        (g : Gateway fl) (rs : List Request)
        → Distinct (batch_ids g)
        → Distinct (batch_ids (serve g rs))
    unfolding serve
    serve-Distinct g [] d = d
    serve-Distinct g (r ∷ rs) d = serve-Distinct (handle g r).1 rs (elim (handle-batch_ids g r) [
      | inl same ↦ rw same d
      | inr (id, new, more) ↦ rw more (Distinct-snoc id (batch_ids g) new d)
    ])

    -- A stored batch_id stays stored.
    serve-keeps :
        (g : Gateway fl) (rs : List Request) (id : String)
        → contains id (batch_ids g) ≡ true
        → contains id (batch_ids (serve g rs)) ≡ true
    unfolding serve
    serve-keeps g [] id h = h
    serve-keeps g (r ∷ rs) id h = serve-keeps (handle g r).1 rs id (elim (handle-batch_ids g r) [
      | inl same ↦ rw same h
      | inr (new, _, more) ↦ rw (more, contains-append id (batch_ids g) (new ∷ []), h)
    ])

    stored :
        (g : Gateway fl) (r : Request)
        → (a : Admitted fl host r.clock g r.body r.signature r.public_key (handle g r))
        → contains a.batch.batch_id (batch_ids (handle g r).1) ≡ true
    stored g r a =
        rw
          (
            Admitted-batch_ids g r a,
            contains-append a.batch.batch_id (batch_ids g) (a.batch.batch_id ∷ []),
          )
          (ground (arith, beq_refl {A = String} a.batch.batch_id))

    still_stored :
        (g : Gateway fl) (r again : Request) (between : List Request)
        → (a : Admitted fl host r.clock g r.body r.signature r.public_key (handle g r))
        → let later = serve (handle g r).1 between in
          (b : Admitted fl host again.clock later again.body again.signature again.public_key
            (handle later again))
          → again.body ≡ r.body
          → ⊥
    still_stored g r again between a b same =
        let later = serve (handle g r).1 between in
        let one : a.batch ≡ b.batch = cc (a.parsed, b.parsed, ap host.parse same) in
        let kept = serve-keeps (handle g r).1 between a.batch.batch_id (stored g r a) in
        let new = new_id later b.batch b.is_new in cc (one, kept, new)

    -- Once a body has been accepted, the same body is never accepted again, at whatever later time
    -- and with whatever signature: the answer is a refusal, and the gateway stays as it is.
    pub replay_refused :
        (g : Gateway fl) (r again : Request) (between : List Request)
        → ¬ IsRefusal fl (handle g r).0
        → again.body ≡ r.body
        → let later = serve (handle g r).1 between in
          IsRefusal fl (handle later again).0 × ((handle later again).1 ≡ later)
    replay_refused g r again between won same =
        let later = serve (handle g r).1 between in
        elim (ingest-Outcome fl host r.clock g r.body r.signature r.public_key) [
          | inl (refused, _) ↦ absurd (won refused)
          | inr a ↦
              elim (ingest-Outcome fl host again.clock later again.body again.signature
                again.public_key) [
                  | inl refused ↦ refused
                  | inr b ↦ absurd (still_stored g r again between a b same)
                ]
        ]
