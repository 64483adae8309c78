-- ===== src/Redis/History.antt =====
-- Sequences of calls of `RedisAgreementScorer`, the same calls that the in-process scorer takes,
-- and the order of events in which the two agree.
use seismograph.Prelude.{ℕ, ◌*◌, ◌/◌, ◌≤◌, ◌≡◌, false, Triple, some, List, [], ◌∷◌, ◌==◌, string_eq}
use seismograph.Scorer.{stamp}
use seismograph.Scorer.History.{Call, observes, ingests, promotes, clears}
use seismograph.Redis.{
  Redis, RedisScorer, ns_per_ms, observe_redis, ingest_redis, promote_redis, clear_redis,
}
use seismograph.Redis.Streams.{akey_of, okey_of}

-- A time in whole milliseconds.
abbrev pub Whole : ℕ → Type 0
Whole t = ns_per_ms * (t / ns_per_ms) ≡ t

module _ {R : Type 0} where
  unfoldable pub step_redis : (rd : Redis) → RedisScorer → rd.Store → ℕ × Call R → rd.Store
  step_redis rd r st (now, observes mt metric org ts suite) =
      observe_redis rd r mt metric org ts suite now st
  step_redis rd r st (now, ingests result) = ingest_redis rd r result now st
  step_redis rd r st (now, promotes mt metric suite) = (promote_redis rd r mt metric now suite st).1
  step_redis rd r st (now, clears mt metric suite) = clear_redis rd mt metric suite st

  unfoldable pub run_redis : (rd : Redis) → RedisScorer → rd.Store → List (ℕ × Call R) → rd.Store
  unfolding step_redis
  run_redis rd r st [] = st
  run_redis rd r st (c ∷ cs) = run_redis rd r (step_redis rd r st c) cs

  -- The time of the last event, and of the last promotion, after a call (in ms).
  abbrev pub next_latest : ℕ → ℕ × Call R → ℕ
  next_latest latest (now, observes mt metric org ts suite) = stamp ts now / ns_per_ms
  next_latest latest (now, ingests result) = stamp (some result.timestamp_ns) now / ns_per_ms
  next_latest latest _ = latest

  abbrev pub next_pruned : ℕ → ℕ × Call R → ℕ
  next_pruned pruned (now, promotes mt metric suite) = now / ns_per_ms
  next_pruned pruned _ = pruned

  abbrev pub Follows : ℕ → ℕ → ℕ × Call R → Type 0
  Follows pruned latest (now, observes mt metric org ts suite) =
      Whole (stamp ts now) × (latest ≤ stamp ts now / ns_per_ms)
  Follows pruned latest (now, ingests result) =
      Whole (stamp (some result.timestamp_ns) now)
      × (latest ≤ stamp (some result.timestamp_ns) now / ns_per_ms)
  Follows pruned latest (now, promotes mt metric suite) = Whole now × (pruned ≤ now / ns_per_ms)
  Follows pruned latest (now, clears mt metric suite) = Unit

  -- Events come in the order of their times, promotions too, and the last one is at `n` at most.
  abbrev pub InOrder : ℕ → ℕ → ℕ → List (ℕ × Call R) → Type 0
  InOrder pruned latest n [] = pruned ≤ n
  InOrder pruned latest n (c ∷ cs) =
      Follows pruned latest c × InOrder (next_pruned pruned c) (next_latest latest c) n cs

-- Streams whose keys on the server differ.
abbrev pub Apart : Triple → Triple → Type 0
Apart j k = ((akey_of j == akey_of k) ≡ false) × ((okey_of j == okey_of k) ≡ false)
