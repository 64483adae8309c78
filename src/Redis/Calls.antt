-- ===== src/Redis/Calls.antt =====
-- The calls of a stream, one by one: the server's sets go on standing for the stream's tables, and
-- a promotion returns the same count.
use seismograph.Prelude.{
  ℕ, ◌*◌, ◌/◌, ◌≤◌, ◌≡◌, refl, sym, String, Triple, Bool, true, false, Option, some, List, [], ◌∷◌,
  arith, if◌then◌else◌, string_eq, triple_eq, nat_eq,
}
use mathlib.Core.Path.{subst}
use seismograph.Scorer.{
  Scorer, ChangePointResult, stamp, observe, ingest, ingest_org, ingest_orgs, record_in,
}
use seismograph.Redis.{
  Redis, RedisLaws, RedisScorer, ns_per_ms, obs_key, observe_redis, zadd_orgs, ingest_named,
  ingest_redis,
}
use seismograph.Redis.Refines.{
  Refines, Refines-later, Refines-expire, Refines-observed, Refines-agreed, stamp_ms-stamp,
}
use seismograph.Redis.Streams.{akey_of, okey_of}
use seismograph.Redis.History.{Whole}

stamp_twice : (t now : ℕ) → stamp (some (stamp (some t) now)) now ≡ stamp (some t) now
unfolding stamp
stamp_twice t now = ground arith

module _ (rd : Redis) (laws : RedisLaws rd) (r : RedisScorer) (pruned : ℕ) where
  pub Refines-observe :
      (mt metric suite : String) (latest : ℕ) (org : String) (ts : Option ℕ) (now : ℕ) (s : Scorer)
      (st : rd.Store)
      → Whole (stamp ts now)
      → latest ≤ stamp ts now / ns_per_ms
      → Refines rd laws r (mt, suite, metric) pruned latest s st
      → Refines rd laws r
          (mt, suite, metric)
          pruned
          (stamp ts now / ns_per_ms)
          (observe s mt metric org ts suite now)
          (observe_redis rd r mt metric org ts suite now st)
  unfolding observe observe_redis
  Refines-observe mt metric suite latest org ts now s st whole le h =
      let e = stamp ts now / ns_per_ms in
      let later = Refines-later rd laws r mt metric suite pruned latest e s st le h in
      let added = Refines-observed rd laws r mt metric suite pruned e org s st later in
      let kept =
        Refines-expire rd laws r mt metric suite pruned e (okey_of (mt, suite, metric)) r.backstop_s
          _ _ added in
      let key = obs_key mt metric suite in
      subst
        (λ x.
          Refines rd laws r (mt, suite, metric) pruned e (observe s mt metric org ts suite now)
            (rd.expire key r.backstop_s (rd.zadd key org x st)))
        (sym (stamp_ms-stamp ts now))
        (subst
          (λ v.
            Refines rd laws r (mt, suite, metric) pruned e
              (record s { observers = record_in (mt, suite, metric) org v s.observers })
              (rd.expire key r.backstop_s (rd.zadd key org e st)))
          whole kept)

  module _ {R : Type 0} (result : ChangePointResult R) (latest now : ℕ)
      (whole : stamp (some (ns_per_ms * latest)) now ≡ ns_per_ms * latest) where
    abbrev k : Triple
    k = (result.model_tuple, result.suite_version, result.metric_name)

    -- One turn of the loop: an observer, and a candidate if the result says so.
    Refines-turn :
        (fired : Bool) (org : String) (s : Scorer) (st : rd.Store)
        → Refines rd laws r k pruned latest s st
        → Refines rd laws r k pruned latest
            (let seen : Scorer = record s {
              observers = record_in k org (ns_per_ms * latest) s.observers;
            } in
              if fired
              then record seen { agree = record_in k org (ns_per_ms * latest) seen.agree }
              else seen)
            (let seen = rd.zadd (okey_of k) org latest st in
              if fired then rd.zadd (akey_of k) org latest seen else seen)
    Refines-turn true org s st h =
        Refines-agreed rd laws r result.model_tuple result.metric_name result.suite_version pruned
          latest org _ _
          (Refines-observed rd laws r result.model_tuple result.metric_name result.suite_version
            pruned latest org s st h)
    Refines-turn false org s st h =
        Refines-observed rd laws r result.model_tuple result.metric_name result.suite_version pruned
          latest org s st h

    ingest_org-turn :
        (fired : Bool) (s : Scorer) (org : String)
        → fired ≡ result.change_detected
        → ingest_org s result (ns_per_ms * latest) now org ≡ (
            let seen : Scorer = record s {
              observers = record_in k org (ns_per_ms * latest) s.observers;
            } in
            if fired
            then record seen { agree = record_in k org (ns_per_ms * latest) seen.agree }
            else seen)
    unfolding ingest_org observe
    ingest_org-turn fired s org same = rw (same, whole) refl

    Refines-loop :
        (orgs : List String) (s : Scorer) (st : rd.Store)
        → Refines rd laws r k pruned latest s st
        → Refines rd laws r k pruned latest
            (ingest_orgs s result (ns_per_ms * latest) now orgs)
            (zadd_orgs rd result.change_detected (akey_of k) (okey_of k) latest orgs st)
    unfolding ingest_orgs zadd_orgs
    Refines-loop [] s st h = h
    Refines-loop (org ∷ orgs) s st h = Refines-loop orgs _ _ (
        rw (ingest_org-turn result.change_detected s org refl)
          (Refines-turn result.change_detected org s st h))

  module _ {R : Type 0} (result : ChangePointResult R) (latest now : ℕ) where
    abbrev stream : Triple
    stream = (result.model_tuple, result.suite_version, result.metric_name)

    abbrev event : ℕ
    event = stamp (some result.timestamp_ns) now

    Refines-rearm :
        (fired : Bool) (e : ℕ) (s : Scorer) (st : rd.Store)
        → Refines rd laws r stream pruned e s st
        → Refines rd laws r stream pruned e s (
            let kept = rd.expire (okey_of stream) r.backstop_s st in
            if fired then rd.expire (akey_of stream) r.backstop_s kept else kept)
    Refines-rearm true e s st h =
        Refines-expire rd laws r result.model_tuple result.metric_name result.suite_version pruned e
          (akey_of stream) r.backstop_s s _
          (Refines-expire rd laws r result.model_tuple result.metric_name result.suite_version
            pruned e (okey_of stream) r.backstop_s s st h)
    Refines-rearm false e s st h =
        Refines-expire rd laws r result.model_tuple result.metric_name result.suite_version pruned e
          (okey_of stream) r.backstop_s s st h

    Refines-named :
        (orgs : List String) (s : Scorer) (st : rd.Store)
        → Whole event
        → latest ≤ event / ns_per_ms
        → Refines rd laws r stream pruned latest s st
        → Refines rd laws r stream pruned
            (event / ns_per_ms)
            (ingest_orgs s result event now orgs)
            (ingest_named rd r result now orgs st)
    unfolding ingest_orgs ingest_named
    Refines-named [] s st whole le h =
        Refines-later rd laws r result.model_tuple result.metric_name result.suite_version pruned
          latest (event / ns_per_ms) s st le h
    Refines-named (org ∷ orgs) s st whole le h =
        let e = event / ns_per_ms in
        let again =
          subst (λ v. stamp (some v) now ≡ v) (sym whole) (stamp_twice result.timestamp_ns now) in
        let later =
          Refines-later rd laws r result.model_tuple result.metric_name result.suite_version pruned
            latest e s st le h in
        let rearm : ℕ → rd.Store = λ x.
          let added =
            zadd_orgs rd result.change_detected (akey_of stream) (okey_of stream) x (org ∷ orgs)
              st in
          let kept = rd.expire (okey_of stream) r.backstop_s added in
          if result.change_detected then rd.expire (akey_of stream) r.backstop_s kept else kept in
        subst
          (λ x.
            Refines rd laws r stream pruned e (ingest_orgs s result event now (org ∷ orgs))
              (rearm x))
          (sym (stamp_ms-stamp (some result.timestamp_ns) now))
          (subst
            (λ v.
              Refines rd laws r stream pruned e (ingest_orgs s result v now (org ∷ orgs)) (rearm e))
            whole
            (Refines-rearm result.change_detected e _ _
              (Refines-loop result e now again (org ∷ orgs) s st later)))

    pub Refines-ingest :
        (s : Scorer) (st : rd.Store)
        → Whole event
        → latest ≤ event / ns_per_ms
        → Refines rd laws r stream pruned latest s st
        → Refines rd laws r stream pruned
            (event / ns_per_ms)
            (ingest s result now)
            (ingest_redis rd r result now st)
    unfolding ingest ingest_redis
    Refines-ingest s st whole le h = Refines-named result.contributing_orgs s st whole le h
