-- ===== src/Redis/Tables.antt =====
-- How a sorted set of milliseconds stands for a table of nanoseconds of the in-process scorer. The
-- set may lack the entries that expired before the last promotion of the stream.
use seismograph.Prelude.{
  true, ℕ, ◌+◌, ◌-◌, ◌*◌, ◌≤◌, ◌<◌, ◌≡◌, refl, String, Option, none, some, arith, leb, both, true,
  false, if◌then◌else◌, Bool-cases, inl, inr, ◌==◌, string_eq, length, keep, ◌∙◌, length-map,
}
use seismograph.Dict.{Dict, get, get-put, or_default}
use seismograph.Dict.Keys.{keys, Distinct, Distinct-put}
use seismograph.Dict.Live.{passes, retain, length-keep_same}
use seismograph.Scorer.{Scorer, Table, record_latest, live_orgs}
use seismograph.Redis.{ns_per_ms}

-- `pruned` is the time of the last promotion, and no event is after `latest` (both in ms).
abbrev pub Stands : ℕ → ℕ → ℕ → Option ℕ → Option ℕ → Type 0
Stands ttl pruned latest none none = Unit
Stands ttl pruned latest none (some t) = true ≡ false
Stands ttl pruned latest (some v) none =
    (v ≤ ns_per_ms * latest) × (v + ns_per_ms * ttl < ns_per_ms * pruned)
Stands ttl pruned latest (some v) (some t) = (v ≡ ns_per_ms * t) × (t ≤ latest)

module _ (ttl pruned latest : ℕ) where
  Stands-live :
      (n : ℕ) (o q : Option ℕ)
      → pruned ≤ n
      → Stands ttl pruned latest o q
      → passes (λ v. both (leb (ns_per_ms * n - ns_per_ms * ttl) v) (leb v (ns_per_ms * n))) o
        ≡ passes (λ t. both (leb (n - ttl) t) (leb t n)) q
  Stands-live n none none le h = refl
  Stands-live n none (some t) le h = cc
  Stands-live n (some v) none le h = ground arith
  Stands-live n (some v) (some t) le h = ground arith

  Stands-prune :
      (n : ℕ) (o q : Option ℕ)
      → pruned ≤ n
      → Stands ttl pruned latest o q
      → Stands ttl n latest o (retain (leb (n - ttl)) q)
  Stands-prune n none none le h = tt
  Stands-prune n none (some t) le h = cc
  Stands-prune n (some v) none le h = (h.0, omega (arith, h.1))
  Stands-prune n (some v) (some t) le h = ground arith

  Stands-later :
      (e : ℕ) (o q : Option ℕ) → latest ≤ e → Stands ttl pruned latest o q → Stands ttl pruned e o q
  Stands-later e none none le h = tt
  Stands-later e none (some t) le h = h
  Stands-later e (some v) none le h = (omega (arith, h.0), h.1)
  Stands-later e (some v) (some t) le h = (h.0, omega (arith, h.1))

  Stands-bound :
      (e : ℕ) (o q : Option ℕ)
      → latest ≤ e
      → Stands ttl pruned latest o q
      → leb (or_default 0 o) (ns_per_ms * e) ≡ true
  Stands-bound e none none le h = ground arith
  Stands-bound e none (some t) le h = cc
  Stands-bound e (some v) none le h = ground arith
  Stands-bound e (some v) (some t) le h = ground arith

pub record TableStands (ttl pruned latest : ℕ) (table : Table) (set : Dict String ℕ) : Type 0 where
  pub distinct : Distinct (keys table)
  pub members : Distinct (keys set)
  pub stands : (org : String) → Stands ttl pruned latest (get org table) (get org set)

module _ (ttl pruned latest : ℕ) (table : Table) (set : Dict String ℕ) where
  -- ZADD of an event that no stored one is after.
  pub TableStands-record :
      (org : String) (e : ℕ) (after : Dict String ℕ)
      → latest ≤ e
      → TableStands ttl pruned latest table set
      → Distinct (keys after)
      → ((m : String) → get m after ≡ (if org == m then some e else get m set))
      → TableStands ttl pruned e (record_latest org (ns_per_ms * e) table) after
  unfolding record_latest
  TableStands-record org e after le h u added =
      let bound =
        Stands-bound ttl pruned latest e (get org table) (get org set) le (h.stands org) in
      rw bound (record {
        distinct = Distinct-put org (ns_per_ms * e) table h.distinct;
        members = u;
        stands = λ m.
            rw (added m, get-put org m (ns_per_ms * e) table)
              (elim (Bool-cases (org == m)) [
                | inl here ↦ rw here (refl, omega arith)
                | inr other ↦
                    rw other
                      (Stands-later ttl pruned latest e (get m table) (get m set) le (h.stands m))
              ]);
      })

  pub TableStands-later :
      (e : ℕ)
      → latest ≤ e
      → TableStands ttl pruned latest table set
      → TableStands ttl pruned e table set
  TableStands-later e le h = record {
    distinct = h.distinct;
    members = h.members;
    stands = λ m. Stands-later ttl pruned latest e (get m table) (get m set) le (h.stands m);
  }

  -- ZREMRANGEBYSCORE at a later promotion.
  pub TableStands-prune :
      (n : ℕ) (after : Dict String ℕ)
      → pruned ≤ n
      → TableStands ttl pruned latest table set
      → Distinct (keys after)
      → ((m : String) → get m after ≡ retain (leb (n - ttl)) (get m set))
      → TableStands ttl n latest table after
  TableStands-prune n after le h u rest = record {
    distinct = h.distinct;
    members = u;
    stands = λ m.
        rw (rest m) (Stands-prune ttl pruned latest n (get m table) (get m set) le (h.stands m));
  }

  -- The live entries are equally many.
  pub live-count :
      (s : Scorer) (n : ℕ)
      → s.ttl_ns ≡ ns_per_ms * ttl
      → pruned ≤ n
      → TableStands ttl pruned latest table set
      → length (live_orgs s table (ns_per_ms * n))
        ≡ length (keep (λ e. both (leb (n - ttl) e.1) (leb e.1 n)) set)
  unfolding live_orgs
  live-count s n e le h = rw e (
      length-map
        (keep (λ x. both (leb (ns_per_ms * n - ns_per_ms * ttl) x.1) (leb x.1 (ns_per_ms * n)))
          table)
        (λ x. x.0)
      ∙ length-keep_same
          (λ v. both (leb (ns_per_ms * n - ns_per_ms * ttl) v) (leb v (ns_per_ms * n)))
          (λ t. both (leb (n - ttl) t) (leb t n)) table set h.distinct h.members
          (λ m. Stands-live ttl pruned latest n (get m table) (get m set) le (h.stands m)))

  -- Another set with the same members.
  pub TableStands-same :
      (after : Dict String ℕ)
      → TableStands ttl pruned latest table set
      → Distinct (keys after)
      → ((m : String) → get m after ≡ get m set)
      → TableStands ttl pruned latest table after
  TableStands-same after h u same = record {
    distinct = h.distinct;
    members = u;
    stands = λ m. rw (same m) (h.stands m);
  }
