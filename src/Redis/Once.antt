-- ===== src/Redis/Once.antt =====
-- Two promotions in a row, by one gateway or by two, on one server.
use seismograph.Prelude.{
  ℕ, ◌-◌, ◌/◌, ◌≡◌, refl, ◌∙◌, String, Bool, true, false, none, some, [], arith, leb, both,
  if◌then◌else◌, Bool-cases, inl, inr, ◌==◌, nat_eq, string_eq, beq_refl,
}
use seismograph.Dict.{get}
use seismograph.Dict.Live.{length-keep_same}
use seismograph.Redis.{
  Redis, RedisLaws, RedisScorer, ns_per_ms, agree_key, obs_key, promote_counts, promote_script,
  promote_redis,
}
use seismograph.Redis.Streams.{okey-akey}

counted : (n c : ℕ) → (if n == 0 then none else some n) ≡ some c → (n == 0) ≡ false
counted n c h = ground arith

module _ (rd : Redis) (laws : RedisLaws rd) where
  zcount_empty :
      (key : String) (lo hi : ℕ) (st : rd.Store)
      → ((m : String) → get m (rd.zset key st) ≡ none)
      → rd.zcount key lo hi st ≡ 0
  zcount_empty key lo hi st h =
      laws.zcount-zset key lo hi st
      ∙ length-keep_same (λ t. both (leb lo t) (leb t hi)) (λ t. true) (rd.zset key st) []
          (laws.zset-Distinct key st) tt (λ m. rw (h m) refl)

  module _ (akey okey : String) where
    script_empty :
        (cutoff now floor num den : ℕ) (st : rd.Store)
        → (okey == akey) ≡ false
        → ((m : String) → get m (rd.zset akey st) ≡ none)
        → (promote_script rd akey okey cutoff now floor num den st).0 ≡ 0
    unfolding promote_script promote_counts
    script_empty cutoff now floor num den st ne h =
        rw
          (zcount_empty akey cutoff now (rd.zrembelow okey cutoff (rd.zrembelow akey cutoff st))
            (λ m.
              rw
                (
                  laws.zset-zrembelow okey akey m cutoff (rd.zrembelow akey cutoff st),
                  ne,
                  laws.zset-zrembelow akey akey m cutoff st,
                  beq_refl akey,
                  h m,
                )
                refl))
          refl

    decided_deletes :
        (b : Bool) (agree : ℕ) (st : rd.Store)
        → (let r : ℕ × rd.Store = if b then (agree, rd.delete akey st) else (0, st) in r.0 == 0)
          ≡ false
        → (m : String)
        → get m (
            rd.zset akey
              (let r : ℕ × rd.Store = if b then (agree, rd.delete akey st) else (0, st) in r.1))
          ≡ none
    decided_deletes true agree st h m = rw (laws.zset-delete akey akey m st, beq_refl akey) refl
    decided_deletes false agree st h m = absurd cc

    counts_deletes :
        (cutoff now floor num den : ℕ) (st : rd.Store)
        → ((promote_counts rd akey okey cutoff now floor num den st).0 == 0) ≡ false
        → (m : String)
        → get m (rd.zset akey (promote_counts rd akey okey cutoff now floor num den st).1) ≡ none
    unfolding promote_counts
    counts_deletes cutoff now floor num den st =
        elim (Bool-cases (rd.zcount akey cutoff now st == 0)) [
          | inl nobody ↦ rw nobody (λ h m. absurd cc)
          | inr somebody ↦ rw somebody (λ h m. decided_deletes _ _ st h m)
        ]

  script_deletes :
      (akey okey : String) (cutoff now floor num den : ℕ) (st : rd.Store)
      → ((promote_script rd akey okey cutoff now floor num den st).0 == 0) ≡ false
      → (m : String)
      → get m (rd.zset akey (promote_script rd akey okey cutoff now floor num den st).1) ≡ none
  unfolding promote_script
  script_deletes akey okey cutoff now floor num den st =
      counts_deletes akey okey cutoff now floor num den
        (rd.zrembelow okey cutoff (rd.zrembelow akey cutoff st))

  -- After a promotion that returns a count, a second promotion of the stream on the same server
  -- returns none, whatever clock and settings the gateway that asks has: no two gateways promote
  -- the same candidates.
  pub promote_redis_once :
      (r q : RedisScorer) (mt metric suite : String) (now later c : ℕ) (st : rd.Store)
      → (promote_redis rd r mt metric now suite st).0 ≡ some c
      → (promote_redis rd q mt metric later suite (promote_redis rd r mt metric now suite st).1).0
        ≡ none
  unfolding promote_redis
  promote_redis_once r q mt metric suite now later c st h =
      let akey = agree_key mt metric suite in
      let okey = obs_key mt metric suite in
      let n = now / ns_per_ms in
      let deleted =
        script_deletes akey okey (n - r.ttl_ms) n r.floor r.frac_num r.frac_den st
          (counted _ c h) in
      rw
        (script_empty akey okey (later / ns_per_ms - q.ttl_ms) (later / ns_per_ms) q.floor
          q.frac_num q.frac_den (promote_redis rd r mt metric now suite st).1
          (okey-akey (mt, suite, metric) (mt, suite, metric)) deleted)
        refl
