-- ===== src/Gateway/Loop.antt =====
-- How the handler of gateway/main.py ends, and the rule for its loops over the metrics.
use seismograph.Prelude.{
  ◌≡◌, refl, ◌⊎◌, inl, inr, String, true, false, Option, none, some, List, [], ◌∷◌, Bool-cases,
  Option-cases,
}
use seismograph.Float.{Float}
use seismograph.Schema.{Batch, Validation, valid, invalid, raised, validate}
use seismograph.Repository
use seismograph.Gateway.{
  Gateway, Clock, Host, Response, accepted, answer, Progress, public_metric, public_metrics,
  private_metric, private_metrics, route, admit, after_validation, verify_signature, after_parsing,
  ingest_signals,
}

module _ (fl : Float) where
  -- What every turn of a loop keeps, the loop keeps.
  module _ (clock : Clock) (batch : Batch fl) (P : Progress fl → Type 0) where
    pub public_metrics-keeps :
        ((p : Progress fl) (m : String × fl.Value) → P p → P (public_metric fl clock batch p m))
        → (p : Progress fl) (ms : List (String × fl.Value)) → P p
        → P (public_metrics fl clock batch p ms)
    unfolding public_metrics
    public_metrics-keeps turn p [] h = h
    public_metrics-keeps turn p (m ∷ ms) h =
        let q = public_metric fl clock batch p m in
        let last = public_metrics-keeps turn q ms (turn p m h) in
        elim (Option-cases q.1) [
          | inl stopped ↦ rw (stopped, public_metrics) (turn p m h)
          | inr (alerts, going) ↦ rw (going, public_metrics) last
        ]

    pub private_metrics-keeps :
        (fleet : String)
        → ((p : Progress fl) (m : String × fl.Value)
            → P p
            → P (private_metric fl clock batch fleet p m))
        → (p : Progress fl) (ms : List (String × fl.Value)) → P p
        → P (private_metrics fl clock batch fleet p ms)
    unfolding private_metrics
    private_metrics-keeps fleet turn p [] h = h
    private_metrics-keeps fleet turn p (m ∷ ms) h =
        let q = private_metric fl clock batch fleet p m in
        let last = private_metrics-keeps fleet turn q ms (turn p m h) in
        elim (Option-cases q.1) [
          | inl stopped ↦ rw (stopped, private_metrics) (turn p m h)
          | inr (alerts, going) ↦ rw (going, private_metrics) last
        ]

  -- The answers that are not 202.
  abbrev pub IsRefusal : Response fl → Type 0
  IsRefusal (accepted _ _ _) = ⊥
  IsRefusal _ = Unit

  abbrev pub saved : Clock → Batch fl → Gateway fl → Gateway fl
  saved clock batch g = record g { repo = Repository.save_batch fl g.repo batch clock.utc }

  -- The batch went through every check of the handler, and this is what the handler did with it.
  pub record Admitted (host : Host fl) (clock : Clock) (g : Gateway fl) (raw : host.Bytes)
      (sig key : String) (out : Response fl × Gateway fl) : Type 0 where
    pub batch : Batch fl
    pub verified : verify_signature fl host raw sig key ≡ true
    pub parsed : host.parse raw ≡ some batch
    pub validated : validate fl host.is_word batch ≡ valid
    pub is_new : Repository.has_batch fl g.repo batch.batch_id ≡ false
    pub result : out ≡ (
        let (g', alerts) = route fl clock batch batch.fleet_id (saved clock batch g) in
        (answer fl batch alerts, g'))

  module _ (host : Host fl) (clock : Clock) (g : Gateway fl) (raw : host.Bytes)
      (sig key : String) where
    abbrev pub Outcome : Response fl × Gateway fl → Type 0
    Outcome out = (IsRefusal out.0 × (out.1 ≡ g)) ⊎ Admitted host clock g raw sig key out

    admit-Outcome :
        (batch : Batch fl)
        → verify_signature fl host raw sig key ≡ true
        → host.parse raw ≡ some batch
        → validate fl host.is_word batch ≡ valid
        → Outcome (admit fl clock batch g)
    unfolding admit
    admit-Outcome batch v p ok = elim (Bool-cases (Repository.has_batch fl g.repo batch.batch_id)) [
      | inl old ↦ rw old (inl (tt, refl))
      | inr new ↦ rw new (
          inr (record {
            batch = batch;
            verified = v;
            parsed = p;
            validated = ok;
            is_new = new;
            result = refl;
          }))
    ]

    validation-Outcome :
        (batch : Batch fl) (verdict : Validation)
        → verify_signature fl host raw sig key ≡ true
        → host.parse raw ≡ some batch
        → validate fl host.is_word batch ≡ verdict
        → Outcome (after_validation fl clock batch g verdict)
    unfolding after_validation
    validation-Outcome batch valid v p ok = admit-Outcome batch v p ok
    validation-Outcome batch invalid v p ok = inl (tt, refl)
    validation-Outcome batch raised v p ok = inl (tt, refl)

    parsing-Outcome :
        (o : Option (Batch fl))
        → verify_signature fl host raw sig key ≡ true
        → host.parse raw ≡ o
        → Outcome (after_parsing fl host clock g o)
    unfolding after_parsing
    parsing-Outcome none v p = inl (tt, refl)
    parsing-Outcome (some batch) v p =
        validation-Outcome batch (validate fl host.is_word batch) v p refl

    pub ingest-Outcome : Outcome (ingest_signals fl host clock g raw sig key)
    unfolding ingest_signals
    ingest-Outcome = elim (Bool-cases (verify_signature fl host raw sig key)) [
      | inl signed ↦ rw signed (parsing-Outcome (host.parse raw) signed refl)
      | inr unsigned ↦ rw unsigned (inl (tt, refl))
    ]
