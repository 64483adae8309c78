-- ===== src/Redis/Sets.antt =====
-- The two sorted sets of a stream, command by command.
use seismograph.Prelude.{
  ℕ, ◌-◌, ◌*◌, ◌≤◌, ◌≡◌, refl, ap, String, Triple, [], arith, string_eq, beq_refl,
}
use seismograph.Dict.{get}
use seismograph.Scorer.{Table, record_latest}
use seismograph.Redis.{Redis, RedisLaws, ns_per_ms}
use seismograph.Redis.Tables.{
  TableStands, TableStands-record, TableStands-later, TableStands-prune, TableStands-same,
}
use seismograph.Redis.Streams.{akey_of, okey_of, akey-okey, okey-akey}

module _ (rd : Redis) (laws : RedisLaws rd) (ttl : ℕ) (k : Triple) where
  pub record SetsStand (pruned latest : ℕ) (ta to : Table) (st : rd.Store) : Type 0 where
    pub agree : TableStands ttl pruned latest ta (rd.zset (akey_of k) st)
    pub observers : TableStands ttl pruned latest to (rd.zset (okey_of k) st)

  -- Both sets of the stream have the same members in two states of the server.
  abbrev pub SameSets : rd.Store → rd.Store → Type 0
  SameSets st after =
      ((m : String) → get m (rd.zset (akey_of k) after) ≡ get m (rd.zset (akey_of k) st))
      × ((m : String) → get m (rd.zset (okey_of k) after) ≡ get m (rd.zset (okey_of k) st))

  pub SameSets-SetsStand :
      {pruned latest : ℕ} {ta to : Table} {st : rd.Store} (after : rd.Store)
      → SameSets st after
      → SetsStand pruned latest ta to st
      → SetsStand pruned latest ta to after
  SameSets-SetsStand {pruned} {latest} {ta} {to} {st} after same h = record {
    agree =
        TableStands-same ttl pruned latest ta (rd.zset (akey_of k) st) (rd.zset (akey_of k) after)
          h.agree (laws.zset-Distinct (akey_of k) after) same.0;
    observers =
        TableStands-same ttl pruned latest to (rd.zset (okey_of k) st) (rd.zset (okey_of k) after)
          h.observers (laws.zset-Distinct (okey_of k) after) same.1;
  }

  pub expire-SameSets : (key : String) (n : ℕ) (st : rd.Store) → SameSets st (rd.expire key n st)
  expire-SameSets key n st = (
    λ m. ap (get m) (laws.zset-expire key (akey_of k) n st),
    λ m. ap (get m) (laws.zset-expire key (okey_of k) n st),
  )

  module _ {pruned latest : ℕ} {ta to : Table} {st : rd.Store} where
    pub SetsStand-later :
        (e : ℕ) → latest ≤ e → SetsStand pruned latest ta to st → SetsStand pruned e ta to st
    SetsStand-later e le h = record {
      agree = TableStands-later ttl pruned latest ta (rd.zset (akey_of k) st) e le h.agree;
      observers = TableStands-later ttl pruned latest to (rd.zset (okey_of k) st) e le h.observers;
    }

    pub zadd-observers :
        (org : String)
        → SetsStand pruned latest ta to st
        → SetsStand pruned latest ta
            (record_latest org (ns_per_ms * latest) to)
            (rd.zadd (okey_of k) org latest st)
    zadd-observers org h = record {
      agree =
          TableStands-same ttl pruned latest ta (rd.zset (akey_of k) st) _ h.agree
            (laws.zset-Distinct (akey_of k) _)
            (λ m. rw (laws.zset-zadd (okey_of k) org (akey_of k) m latest st, okey-akey k k) refl);
      observers =
          TableStands-record ttl pruned latest to (rd.zset (okey_of k) st) org latest _
            (omega arith) h.observers (laws.zset-Distinct (okey_of k) _)
            (λ m.
              rw (laws.zset-zadd (okey_of k) org (okey_of k) m latest st, beq_refl (okey_of k))
                refl);
    }

    pub zadd-agree :
        (org : String)
        → SetsStand pruned latest ta to st
        → SetsStand pruned latest
            (record_latest org (ns_per_ms * latest) ta)
            to
            (rd.zadd (akey_of k) org latest st)
    zadd-agree org h = record {
      agree =
          TableStands-record ttl pruned latest ta (rd.zset (akey_of k) st) org latest _
            (omega arith) h.agree (laws.zset-Distinct (akey_of k) _)
            (λ m.
              rw (laws.zset-zadd (akey_of k) org (akey_of k) m latest st, beq_refl (akey_of k))
                refl);
      observers =
          TableStands-same ttl pruned latest to (rd.zset (okey_of k) st) _ h.observers
            (laws.zset-Distinct (okey_of k) _)
            (λ m. rw (laws.zset-zadd (akey_of k) org (okey_of k) m latest st, akey-okey k k) refl);
    }

    -- Both sets lose their stale members.
    pub prune-SetsStand :
        (n : ℕ)
        → pruned ≤ n
        → SetsStand pruned latest ta to st
        → SetsStand n latest ta to
            (rd.zrembelow (okey_of k) (n - ttl) (rd.zrembelow (akey_of k) (n - ttl) st))
    prune-SetsStand n le h = record {
      agree =
          TableStands-prune ttl pruned latest ta (rd.zset (akey_of k) st) n _ le h.agree
            (laws.zset-Distinct (akey_of k) _)
            (λ m.
              rw
                (
                  laws.zset-zrembelow (okey_of k) (akey_of k) m (n - ttl) _,
                  okey-akey k k,
                  laws.zset-zrembelow (akey_of k) (akey_of k) m (n - ttl) st,
                  beq_refl (akey_of k),
                )
                refl);
      observers =
          TableStands-prune ttl pruned latest to (rd.zset (okey_of k) st) n _ le h.observers
            (laws.zset-Distinct (okey_of k) _)
            (λ m.
              rw
                (
                  laws.zset-zrembelow (okey_of k) (okey_of k) m (n - ttl) _,
                  beq_refl (okey_of k),
                  laws.zset-zrembelow (akey_of k) (okey_of k) m (n - ttl) st,
                  akey-okey k k,
                )
                refl);
    }

    -- The set of candidates is deleted.
    pub delete-SetsStand :
        SetsStand pruned latest ta to st → SetsStand pruned latest [] to (rd.delete (akey_of k) st)
    delete-SetsStand h = record {
      agree = record {
        distinct = tt;
        members = laws.zset-Distinct (akey_of k) _;
        stands = λ m. rw (laws.zset-delete (akey_of k) (akey_of k) m st, beq_refl (akey_of k)) tt;
      };
      observers =
          TableStands-same ttl pruned latest to (rd.zset (okey_of k) st) _ h.observers
            (laws.zset-Distinct (okey_of k) _)
            (λ m. rw (laws.zset-delete (akey_of k) (okey_of k) m st, akey-okey k k) refl);
    }
