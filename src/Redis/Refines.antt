-- ===== src/Redis/Refines.antt =====
-- One call at a time: the server's sets go on standing for the tables of the in-process scorer.
use seismograph.Prelude.{
  ℕ, ◌*◌, ◌/◌, ◌≤◌, ◌≡◌, refl, String, Triple, Option, none, some, arith, string_eq, triple_eq,
  nat_eq, beq_refl,
}
use seismograph.Dict.{get-remove, Dict, get-put}
use seismograph.Scorer.{clear, Scorer, Table, bucket_of, record_in, record_latest, stamp}
use seismograph.Redis.{Redis, RedisLaws, RedisScorer, ns_per_ms, stamp_ms}
use seismograph.Redis.Sets.{
  delete-SetsStand, SetsStand, SameSets-SetsStand, expire-SameSets, SetsStand-later, zadd-observers,
  zadd-agree,
}
use seismograph.Redis.Streams.{akey_of, okey_of}

pub stamp_ms-stamp : (ts : Option ℕ) (now : ℕ) → stamp_ms ts now ≡ stamp ts now / ns_per_ms
unfolding stamp_ms stamp
stamp_ms-stamp none now = refl
stamp_ms-stamp (some t) now = ground arith

bucket-record_in :
    (k : Triple) (org : String) (ts : ℕ) (tables : Dict Triple Table)
    → bucket_of k (record_in k org ts tables) ≡ record_latest org ts (bucket_of k tables)
unfolding record_in
bucket-record_in k org ts tables =
    rw (get-put k k (record_latest org ts (bucket_of k tables)) tables, beq_refl k) refl

module _ (rd : Redis) (laws : RedisLaws rd) (r : RedisScorer) where
  -- `pruned` and `latest` bound the last promotion and the last event of the stream, in ms.
  pub record Refines (k : Triple) (pruned latest : ℕ) (s : Scorer) (st : rd.Store) : Type 0 where
    pub sets :
        SetsStand rd laws r.ttl_ms k pruned latest
          (bucket_of k s.agree)
          (bucket_of k s.observers)
          st
    pub floor_same : s.floor ≡ r.floor
    pub ttl_same : s.ttl_ns ≡ ns_per_ms * r.ttl_ms
    pub num_same : s.frac_num ≡ r.frac_num
    pub den_same : s.frac_den ≡ r.frac_den

  module _ (mt metric suite : String) (pruned latest : ℕ) where
    abbrev k : Triple
    k = (mt, suite, metric)

    pub Refines-later :
        (e : ℕ) (s : Scorer) (st : rd.Store)
        → latest ≤ e
        → Refines k pruned latest s st
        → Refines k pruned e s st
    Refines-later e s st le h = record {
      sets = SetsStand-later rd laws r.ttl_ms k e le h.sets;
      floor_same = h.floor_same;
      ttl_same = h.ttl_same;
      num_same = h.num_same;
      den_same = h.den_same;
    }

    pub Refines-expire :
        (key : String) (n : ℕ) (s : Scorer) (st : rd.Store)
        → Refines k pruned latest s st
        → Refines k pruned latest s (rd.expire key n st)
    Refines-expire key n s st h = record {
      sets =
          SameSets-SetsStand rd laws r.ttl_ms k (rd.expire key n st)
            (expire-SameSets rd laws r.ttl_ms k key n st) h.sets;
      floor_same = h.floor_same;
      ttl_same = h.ttl_same;
      num_same = h.num_same;
      den_same = h.den_same;
    }

    pub Refines-observed :
        (org : String) (s : Scorer) (st : rd.Store)
        → Refines k pruned latest s st
        → Refines k pruned latest
            (record s { observers = record_in k org (ns_per_ms * latest) s.observers })
            (rd.zadd (okey_of k) org latest st)
    Refines-observed org s st h = record {
      sets =
          rw (bucket-record_in k org (ns_per_ms * latest) s.observers)
            (zadd-observers rd laws r.ttl_ms k org h.sets);
      floor_same = h.floor_same;
      ttl_same = h.ttl_same;
      num_same = h.num_same;
      den_same = h.den_same;
    }

    pub Refines-agreed :
        (org : String) (s : Scorer) (st : rd.Store)
        → Refines k pruned latest s st
        → Refines k pruned latest
            (record s { agree = record_in k org (ns_per_ms * latest) s.agree })
            (rd.zadd (akey_of k) org latest st)
    Refines-agreed org s st h = record {
      sets =
          rw (bucket-record_in k org (ns_per_ms * latest) s.agree)
            (zadd-agree rd laws r.ttl_ms k org h.sets);
      floor_same = h.floor_same;
      ttl_same = h.ttl_same;
      num_same = h.num_same;
      den_same = h.den_same;
    }

    -- `clear`, and the end of a promotion.
    pub Refines-cleared :
        (s : Scorer) (st : rd.Store)
        → Refines k pruned latest s st
        → Refines k pruned latest (clear s mt metric suite) (rd.delete (akey_of k) st)
    unfolding clear
    Refines-cleared s st h = record {
      sets = rw (get-remove k k s.agree, beq_refl k) (delete-SetsStand rd laws r.ttl_ms k h.sets);
      floor_same = h.floor_same;
      ttl_same = h.ttl_same;
      num_same = h.num_same;
      den_same = h.den_same;
    }
