-- ===== src/Redis/Others.antt =====
-- A call about a stream with other keys leaves the sets of a stream as they were.
use seismograph.Prelude.{
  ℕ, ◌≡◌, refl, ◌∙◌, String, Triple, Bool, true, false, Option, List, [], ◌∷◌, if◌then◌else◌,
  Bool-cases, inl, inr, ◌==◌, string_eq, nat_eq,
}
use seismograph.Scorer.{ChangePointResult}
use seismograph.Scorer.History.{Call, observes, ingests, promotes, clears, stream_of}
use seismograph.Redis.{
  Redis, RedisLaws, RedisScorer, observe_redis, zadd_orgs, ingest_named, ingest_redis,
  promote_counts, promote_script, promote_redis, clear_redis,
}
use seismograph.Redis.Sets.{SameSets, expire-SameSets}
use seismograph.Redis.Streams.{akey_of, okey_of, akey-okey, okey-akey}
use seismograph.Redis.History.{Apart, step_redis}

module _ (rd : Redis) (laws : RedisLaws rd) (ttl : ℕ) (k : Triple) where
  -- A key of which the stream has no set.
  abbrev Foreign : String → Type 0
  Foreign key = ((key == akey_of k) ≡ false) × ((key == okey_of k) ≡ false)

  SameSets-trans :
      (st mid after : rd.Store)
      → SameSets rd laws ttl k st mid
      → SameSets rd laws ttl k mid after
      → SameSets rd laws ttl k st after
  SameSets-trans st mid after p q = (λ m. q.0 m ∙ p.0 m, λ m. q.1 m ∙ p.1 m)

  module _ (key : String) (foreign : Foreign key) where
    zadd-SameSets :
        (org : String) (ts : ℕ) (st : rd.Store) → SameSets rd laws ttl k st (rd.zadd key org ts st)
    zadd-SameSets org ts st = (
      λ m. rw (laws.zset-zadd key org (akey_of k) m ts st, foreign.0) refl,
      λ m. rw (laws.zset-zadd key org (okey_of k) m ts st, foreign.1) refl,
    )

    zrembelow-SameSets : (c : ℕ) (st : rd.Store) → SameSets rd laws ttl k st (rd.zrembelow key c st)
    zrembelow-SameSets c st = (
      λ m. rw (laws.zset-zrembelow key (akey_of k) m c st, foreign.0) refl,
      λ m. rw (laws.zset-zrembelow key (okey_of k) m c st, foreign.1) refl,
    )

    delete-SameSets : (st : rd.Store) → SameSets rd laws ttl k st (rd.delete key st)
    delete-SameSets st = (
      λ m. rw (laws.zset-delete key (akey_of k) m st, foreign.0) refl,
      λ m. rw (laws.zset-delete key (okey_of k) m st, foreign.1) refl,
    )

  module _ (j : Triple) (apart : Apart j k) where
    akey-Foreign : Foreign (akey_of j)
    akey-Foreign = (apart.0, akey-okey j k)

    okey-Foreign : Foreign (okey_of j)
    okey-Foreign = (okey-akey j k, apart.1)

    if-SameSets :
        (b : Bool) (st x y : rd.Store)
        → SameSets rd laws ttl k st x
        → SameSets rd laws ttl k st y
        → SameSets rd laws ttl k st (if b then x else y)
    if-SameSets true st x y p q = p
    if-SameSets false st x y p q = q

    zadd_orgs-SameSets :
        (fired : Bool) (ts : ℕ) (orgs : List String) (st : rd.Store)
        → SameSets rd laws ttl k st (zadd_orgs rd fired (akey_of j) (okey_of j) ts orgs st)
    unfolding zadd_orgs
    zadd_orgs-SameSets fired ts [] st = (λ m. refl, λ m. refl)
    zadd_orgs-SameSets fired ts (org ∷ orgs) st =
        let seen = zadd-SameSets (okey_of j) okey-Foreign org ts st in
        SameSets-trans st _ _
          (if-SameSets fired st _ _
            (SameSets-trans st _ _ seen (zadd-SameSets (akey_of j) akey-Foreign org ts _)) seen)
          (zadd_orgs-SameSets fired ts orgs _)

    decided-SameSets :
        (b : Bool) (n : ℕ) (st : rd.Store)
        → SameSets rd laws ttl k st
            (let x : ℕ × rd.Store = if b then (n, rd.delete (akey_of j) st) else (0, st) in x.1)
    decided-SameSets true n st = delete-SameSets (akey_of j) akey-Foreign st
    decided-SameSets false n st = (λ m. refl, λ m. refl)

    counts-SameSets :
        (cutoff now floor num den : ℕ) (st : rd.Store)
        → SameSets rd laws ttl k st
            (promote_counts rd (akey_of j) (okey_of j) cutoff now floor num den st).1
    unfolding promote_counts
    counts-SameSets cutoff now floor num den st =
        elim (Bool-cases (rd.zcount (akey_of j) cutoff now st == 0)) [
          | inl nobody ↦ rw nobody (λ m. refl, λ m. refl)
          | inr some_agree ↦ rw some_agree (decided-SameSets _ _ st)
        ]

  module _ (mt metric suite : String) (apart : Apart (mt, suite, metric) k) where
    abbrev j : Triple
    j = (mt, suite, metric)

    expired_after :
        (key : String) (n : ℕ) (st after : rd.Store)
        → SameSets rd laws ttl k st after
        → SameSets rd laws ttl k st (rd.expire key n after)
    expired_after key n st after same =
        SameSets-trans st after _ same (expire-SameSets rd laws ttl k key n after)

    observe-SameSets :
        (r : RedisScorer) (org : String) (ts : Option ℕ) (now : ℕ) (st : rd.Store)
        → SameSets rd laws ttl k st (observe_redis rd r mt metric org ts suite now st)
    unfolding observe_redis
    observe-SameSets r org ts now st =
        expired_after (okey_of j) r.backstop_s st _
          (zadd-SameSets (okey_of j) (okey-Foreign j apart) org _ st)

    rearmed-SameSets :
        (r : RedisScorer) (fired : Bool) (ts : ℕ) (orgs : List String) (st : rd.Store)
        → SameSets rd laws ttl k st (
            let added = zadd_orgs rd fired (akey_of j) (okey_of j) ts orgs st in
            let kept = rd.expire (okey_of j) r.backstop_s added in
            if fired then rd.expire (akey_of j) r.backstop_s kept else kept)
    rearmed-SameSets r fired ts orgs st =
        let added = zadd_orgs-SameSets j apart fired ts orgs st in
        let kept = expired_after (okey_of j) r.backstop_s st _ added in
        if-SameSets j apart fired st _ _ (expired_after (akey_of j) r.backstop_s st _ kept) kept

    promote-SameSets :
        (r : RedisScorer) (now : ℕ) (st : rd.Store)
        → SameSets rd laws ttl k st (promote_redis rd r mt metric now suite st).1
    unfolding promote_redis promote_script
    promote-SameSets r now st =
        SameSets-trans st _ _ (zrembelow-SameSets (akey_of j) (akey-Foreign j apart) _ st) (
          SameSets-trans _ _ _ (zrembelow-SameSets (okey_of j) (okey-Foreign j apart) _ _)
            (counts-SameSets j apart _ _ _ _ _ _))

  ingest-SameSets :
      {R : Type 0} (r : RedisScorer) (result : ChangePointResult R) (now : ℕ) (orgs : List String)
      (st : rd.Store)
      → Apart (stream_of (ingests result)) k
      → SameSets rd laws ttl k st (ingest_named rd r result now orgs st)
  unfolding ingest_named
  ingest-SameSets r result now [] st apart = (λ m. refl, λ m. refl)
  ingest-SameSets r result now (org ∷ orgs) st apart =
      rearmed-SameSets result.model_tuple result.metric_name result.suite_version apart r
        result.change_detected _ (org ∷ orgs) st

  pub step-SameSets :
      {R : Type 0} (r : RedisScorer) (now : ℕ) (c : Call R) (st : rd.Store)
      → Apart (stream_of c) k
      → SameSets rd laws ttl k st (step_redis rd r st (now, c))
  unfolding step_redis ingest_redis clear_redis
  step-SameSets r now (observes mt metric org ts suite) st apart =
      observe-SameSets mt metric suite apart r org ts now st
  step-SameSets r now (ingests result) st apart =
      ingest-SameSets r result now result.contributing_orgs st apart
  step-SameSets r now (promotes mt metric suite) st apart =
      promote-SameSets mt metric suite apart r now st
  step-SameSets r now (clears mt metric suite) st apart =
      delete-SameSets (akey_of (mt, suite, metric)) (akey-Foreign (mt, suite, metric) apart) st
