-- ===== src/Redis/Agrees.antt =====
-- The contract of engine/scorer_redis.py: whatever the calls, the Redis scorer promotes what the
-- in-process one promotes.
use seismograph.Redis.Streams.{okey_of, akey_of}
use seismograph.Prelude.{
  ◌*◌, max, none, Option, ℕ, ◌/◌, ◌≡◌, refl, sym, ◌∙◌, String, Triple, true, false, List, [], ◌∷◌,
  Bool-cases, inl, inr, ◌==◌, string_eq, triple_eq, nat_eq, keep, All,
}
use mathlib.Core.Path.{subst}
use seismograph.Prelude.Eq.{triple_beq_iff}
use seismograph.Scorer.{init, Scorer, promote_to_public_alert}
use seismograph.Scorer.History.{Call, observes, ingests, promotes, clears, stream_of, step, run}
use seismograph.Scorer.Isolation.{step-SameStream}
use seismograph.Redis.{
  quorum_floor, init_redis, or_default, get, Redis, RedisLaws, RedisScorer, ns_per_ms,
  promote_redis, clear_redis,
}
use seismograph.Redis.History.{
  step_redis, run_redis, next_latest, next_pruned, Whole, Follows, InOrder, Apart,
}
use seismograph.Redis.Sets.{SameSets-SetsStand}
use seismograph.Redis.Refines.{Refines, Refines-cleared}
use seismograph.Redis.Calls.{Refines-observe, Refines-ingest}
use seismograph.Redis.Promote.{promote-Refines}
use seismograph.Redis.Others.{step-SameSets}

module _ (rd : Redis) (laws : RedisLaws rd) (r : RedisScorer) where
  own-step :
      {R : Type 0} (pruned latest now : ℕ) (c : Call R) (s : Scorer) (st : rd.Store)
      → Follows pruned latest (now, c)
      → Refines rd laws r (stream_of c) pruned latest s st
      → Refines rd laws r
          (stream_of c)
          (next_pruned pruned (now, c))
          (next_latest latest (now, c))
          (step s (now, c))
          (step_redis rd r st (now, c))
  unfolding step step_redis clear_redis
  own-step pruned latest now (observes mt metric org ts suite) s st f h =
      Refines-observe rd laws r pruned mt metric suite latest org ts now s st f.0 f.1 h
  own-step pruned latest now (ingests result) s st f h =
      Refines-ingest rd laws r pruned result latest now s st f.0 f.1 h
  own-step pruned latest now (promotes mt metric suite) s st f h =
      (promote-Refines rd laws r mt metric suite pruned latest s st (now / ns_per_ms) f.1 h now f.0
        refl).1
  own-step pruned latest now (clears mt metric suite) s st f h =
      Refines-cleared rd laws r mt metric suite pruned latest s st h

  module _ (k : Triple) where
    other-step :
        {R : Type 0} (pruned latest now : ℕ) (c : Call R) (s : Scorer) (st : rd.Store)
        → (stream_of c == k) ≡ false
        → Apart (stream_of c) k
        → Refines rd laws r k pruned latest s st
        → Refines rd laws r k pruned latest (step s (now, c)) (step_redis rd r st (now, c))
    other-step pruned latest now c s st ne apart h =
        let same = step-SameStream k s now c ne in
        let sets =
          SameSets-SetsStand rd laws r.ttl_ms k (step_redis rd r st (now, c))
            (step-SameSets rd laws r.ttl_ms k r now c st apart) h.sets in
        record {
          sets = rw (same.agree, same.observers) sets;
          floor_same = same.floor ∙ h.floor_same;
          ttl_same = same.ttl_ns ∙ h.ttl_same;
          num_same = same.frac_num ∙ h.num_same;
          den_same = same.frac_den ∙ h.den_same;
        }

    own-kept :
        {R : Type 0} (pruned latest now : ℕ) (c : Call R) (s : Scorer) (st : rd.Store)
        → (stream_of c == k) ≡ true
        → Follows pruned latest (now, c)
        → Refines rd laws r k pruned latest s st
        → Refines rd laws r k
            (next_pruned pruned (now, c))
            (next_latest latest (now, c))
            (step s (now, c))
            (step_redis rd r st (now, c))
    own-kept pruned latest now c s st own f h =
        let same = (triple_beq_iff (stream_of c) k).0 own in
        subst
          (λ j.
            Refines rd laws r j (next_pruned pruned (now, c)) (next_latest latest (now, c))
              (step s (now, c)) (step_redis rd r st (now, c)))
          same
          (own-step pruned latest now c s st f
            (subst (λ j. Refines rd laws r j pruned latest s st) (sym same) h))

  module _ (mt metric suite : String) where
    abbrev k : Triple
    k = (mt, suite, metric)

    -- The calls about the stream come in order, the others have other keys.
    run-promotes :
        {R : Type 0} (pruned latest now : ℕ) (calls : List (ℕ × Call R)) (s : Scorer)
        (st : rd.Store)
        → Whole now
        → InOrder pruned latest (now / ns_per_ms) (keep (λ c. stream_of c.1 == k) calls)
        → All (λ c. (stream_of c.1 == k) ≡ false → Apart (stream_of c.1) k) calls
        → Refines rd laws r k pruned latest s st
        → (promote_redis rd r mt metric now suite (run_redis rd r st calls)).0
          ≡ (promote_to_public_alert (run s calls) mt metric now suite).0
    unfolding run run_redis
    run-promotes pruned latest now [] s st whole order apart h =
        (promote-Refines rd laws r mt metric suite pruned latest s st (now / ns_per_ms) order h now
          whole refl).0
    run-promotes pruned latest now ((t, c) ∷ cs) s st whole order apart h =
        elim (Bool-cases (stream_of c == k)) [
          | inl own ↦
              let ordered = rw own at order in
              run-promotes (next_pruned pruned (t, c)) (next_latest latest (t, c)) now cs
                (step s (t, c)) (step_redis rd r st (t, c)) whole ordered.1 apart.1
                (own-kept k pruned latest t c s st own ordered.0 h)
          | inr other ↦
              run-promotes pruned latest now cs (step s (t, c)) (step_redis rd r st (t, c)) whole
                (rw other at order) apart.1
                (other-step k pruned latest t c s st other (apart.0 other) h)
        ]

-- A server that holds no set of the stream.
abbrev pub Fresh : (rd : Redis) → Triple → rd.Store → Type 0
Fresh rd k st =
    ((m : String) → get m (rd.zset (akey_of k) st) ≡ none)
    × ((m : String) → get m (rd.zset (okey_of k) st) ≡ none)

module _ (rd : Redis) (laws : RedisLaws rd) (quorum : Option ℕ) (ttl_ns num den : ℕ) where
  abbrev r : RedisScorer
  r = record {
    floor = or_default quorum_floor quorum;
    ttl_ms = ttl_ns / ns_per_ms;
    frac_num = num;
    frac_den = den;
    backstop_s = max 1 (2 * ttl_ns / 1000000000);
  }

  init-Refines :
      (k : Triple) (st : rd.Store)
      → Whole ttl_ns
      → Fresh rd k st
      → Refines rd laws r k 0 0 (init quorum ttl_ns num den) st
  unfolding init
  init-Refines k st whole fresh = record {
    sets = record {
      agree = record {
        distinct = tt;
        members = laws.zset-Distinct (akey_of k) st;
        stands = λ m. rw (fresh.0 m) tt;
      };
      observers = record {
        distinct = tt;
        members = laws.zset-Distinct (okey_of k) st;
        stands = λ m. rw (fresh.1 m) tt;
      };
    };
    floor_same = refl;
    ttl_same = sym whole;
    num_same = refl;
    den_same = refl;
  }

  -- Take the same calls on a fresh server and on a fresh in-process scorer with the same settings,
  -- all times of the stream's calls in whole milliseconds, its events in the order of their times
  -- and its promotions too, and no key of the stream shared with another stream that a call
  -- names. Then a promotion of the stream that is not before an earlier one returns the same on
  -- both: the same count, or none.
  pub promote_redis-promote :
      {R : Type 0} (mt metric suite : String) (now : ℕ) (calls : List (ℕ × Call R)) (st : rd.Store)
      → Whole ttl_ns
      → Whole now
      → Fresh rd (mt, suite, metric) st
      → InOrder 0 0 (now / ns_per_ms) (keep (λ c. stream_of c.1 == (mt, suite, metric)) calls)
      → All
          (λ c.
            (stream_of c.1 == (mt, suite, metric)) ≡ false
            → Apart (stream_of c.1) (mt, suite, metric))
          calls
      → (promote_redis rd
          (init_redis quorum ttl_ns num den)
          mt
          metric
          now
          suite
          (run_redis rd (init_redis quorum ttl_ns num den) st calls)).0
        ≡ (promote_to_public_alert (run (init quorum ttl_ns num den) calls) mt metric now suite).0
  unfolding init_redis
  promote_redis-promote mt metric suite now calls st whole_ttl whole fresh order apart =
      run-promotes rd laws r mt metric suite 0 0 now calls (init quorum ttl_ns num den) st whole
        order apart (init-Refines (mt, suite, metric) st whole_ttl fresh)
