-- ===== src/Redis/Promote.antt =====
-- `promote_to_public_alert` of the two scorers: the same count, and the sets stand for the tables
-- again.
use seismograph.Redis.History.{Whole}
use seismograph.Prelude.{
  some, ap, none, ◌==◌, true, inr, inl, Bool-cases, ℕ, ◌-◌, ◌*◌, ◌/◌, ◌≤◌, ◌≡◌, refl, sym, ◌∙◌,
  String, Triple, Bool, arith, leb, both, if◌then◌else◌, nat_eq, triple_eq, string_eq, length, max,
}
use seismograph.Prelude.Int.{pos}
use seismograph.Quorum.{required_quorum}
use seismograph.Scorer.{promote_to_public_alert, Scorer, bucket_of, live_orgs}
use seismograph.Scorer.Gate.{promote-verdict, agreeing}
use seismograph.Redis.{
  promote_script, promote_redis, Redis, RedisLaws, RedisScorer, ns_per_ms, promote_counts,
}
use seismograph.Redis.Tables.{live-count}
use seismograph.Redis.Sets.{SetsStand, prune-SetsStand}
use seismograph.Redis.Refines.{Refines-cleared, Refines}
use seismograph.Redis.Streams.{akey_of, okey_of}

abbrev pub quorum_met : ℕ → ℕ → ℕ → ℕ → ℕ → Bool
quorum_met agree observers floor num den =
    both (leb 1 agree) (leb (required_quorum (pos (max observers agree)) floor num den) agree)

met_count :
    (agree observers floor num den : ℕ)
    → quorum_met agree observers floor num den ≡ true
    → (if agree == 0 then none else some agree) ≡ some agree
met_count agree observers floor num den h = ground arith

module _ (rd : Redis) where
  counts-quorum_met :
      (akey okey : String) (cutoff n floor num den agree observers : ℕ) (st : rd.Store)
      → rd.zcount akey cutoff n st ≡ agree
      → rd.zcount okey cutoff n st ≡ observers
      → promote_counts rd akey okey cutoff n floor num den st
        ≡ (if quorum_met agree observers floor num den then (agree, rd.delete akey st) else (0, st))
  unfolding promote_counts required_quorum
  counts-quorum_met akey okey cutoff n floor num den agree observers st ha ho =
      rw (ha, ho) (ground arith)

  module _ (laws : RedisLaws rd) (r : RedisScorer) (mt metric suite : String) (pruned latest : ℕ)
      (s : Scorer) (st : rd.Store) (n : ℕ) (le : pruned ≤ n)
      (h : Refines rd laws r (mt, suite, metric) pruned latest s st) where
    abbrev k : Triple
    k = (mt, suite, metric)

    abbrev after_prune : rd.Store
    after_prune =
        rd.zrembelow (okey_of k) (n - r.ttl_ms) (rd.zrembelow (akey_of k) (n - r.ttl_ms) st)

    after_stands :
        SetsStand rd laws r.ttl_ms k n latest
          (bucket_of k s.agree)
          (bucket_of k s.observers)
          after_prune
    after_stands = prune-SetsStand rd laws r.ttl_ms k n le h.sets

    after-Refines : Refines rd laws r k n latest s after_prune
    after-Refines = record {
      sets = after_stands;
      floor_same = h.floor_same;
      ttl_same = h.ttl_same;
      num_same = h.num_same;
      den_same = h.den_same;
    }

    agree-count :
        rd.zcount (akey_of k) (n - r.ttl_ms) n after_prune ≡ length (agreeing s k (ns_per_ms * n))
    agree-count =
        laws.zcount-zset (akey_of k) (n - r.ttl_ms) n after_prune
        ∙ sym (
            live-count r.ttl_ms n latest (bucket_of k s.agree) (rd.zset (akey_of k) after_prune) s n
              h.ttl_same (omega arith) after_stands.agree)

    observers-count :
        rd.zcount (okey_of k) (n - r.ttl_ms) n after_prune
        ≡ length (live_orgs s (bucket_of k s.observers) (ns_per_ms * n))
    observers-count =
        laws.zcount-zset (okey_of k) (n - r.ttl_ms) n after_prune
        ∙ sym (
            live-count r.ttl_ms n latest (bucket_of k s.observers) (rd.zset (okey_of k) after_prune)
              s n h.ttl_same (omega arith) after_stands.observers)

    abbrev met : Bool
    met =
        quorum_met (length (agreeing s k (ns_per_ms * n)))
          (length (live_orgs s (bucket_of k s.observers) (ns_per_ms * n))) s.floor s.frac_num
          s.frac_den

    script-met :
        promote_script rd (akey_of k) (okey_of k) (n - r.ttl_ms) n r.floor r.frac_num r.frac_den st
        ≡ (if met
            then (length (agreeing s k (ns_per_ms * n)), rd.delete (akey_of k) after_prune)
            else (0, after_prune))
    unfolding promote_script
    script-met =
        rw (sym h.floor_same, sym h.num_same, sym h.den_same)
          (counts-quorum_met (akey_of k) (okey_of k) (n - r.ttl_ms) n s.floor s.frac_num s.frac_den
            (length (agreeing s k (ns_per_ms * n)))
            (length (live_orgs s (bucket_of k s.observers) (ns_per_ms * n))) after_prune agree-count
            observers-count)

    -- The two promotions side by side, for a time of `n` milliseconds.
    promote-pair :
        (now : ℕ)
        → now / ns_per_ms ≡ n
        → now ≡ ns_per_ms * n
        → ((promote_redis rd r mt metric now suite st).0
            ≡ (promote_to_public_alert s mt metric now suite).0)
          × Refines rd laws r k n latest
              (promote_to_public_alert s mt metric now suite).1
              (promote_redis rd r mt metric now suite st).1
    unfolding promote_redis
    promote-pair now e f =
        rw (e, f, script-met, promote-verdict s mt metric (ns_per_ms * n) suite)
          (elim (Bool-cases met) [
            | inl pass ↦ rw pass (
              met_count (length (agreeing s k (ns_per_ms * n))) _ s.floor s.frac_num s.frac_den
                  pass,
              Refines-cleared rd laws r mt metric suite n latest s after_prune after-Refines,
            )
            | inr fail ↦ rw fail (refl, after-Refines)
          ])

    -- A time of whole milliseconds.
    pub promote-Refines :
        (now : ℕ)
        → Whole now
        → n ≡ now / ns_per_ms
        → ((promote_redis rd r mt metric now suite st).0
            ≡ (promote_to_public_alert s mt metric now suite).0)
          × Refines rd laws r k n latest
              (promote_to_public_alert s mt metric now suite).1
              (promote_redis rd r mt metric now suite st).1
    promote-Refines now whole e =
        promote-pair now (sym e) (sym whole ∙ ap (λ x. ns_per_ms * x) (sym e))
