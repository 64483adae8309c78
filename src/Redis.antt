-- ===== src/Redis.antt =====
-- engine/scorer_redis.py: `RedisAgreementScorer`, the agreement scorer whose tables are sorted sets
-- of a Redis server. The server is a parameter: its state, the commands that the code sends, and
-- their documented behaviour. Scores are milliseconds since the epoch, natural numbers that doubles
-- hold exactly. The eviction of a key by `expire` between two calls is not modelled.
pub mod History
pub mod Refines
pub mod Sets
mod Examples
pub mod Agrees
pub mod Calls
pub mod Promote
pub mod Once
pub mod Memory
pub mod Others
pub mod Tables
pub mod Streams
use Prim.Native.String.{◌++◌}
use seismograph.Prelude.{
  ℕ, ◌+◌, ◌-◌, ◌*◌, ◌/◌, ◌≡◌, String, Bool, Option, none, some, List, [], ◌∷◌, leb, ltb, keep,
  length, both, max, if◌then◌else◌, ◌==◌, nat_eq, string_eq,
}
use seismograph.Dict.{Dict, get, or_default}
use seismograph.Dict.Keys.{Distinct, keys}
use seismograph.Dict.Live.{retain}
use seismograph.Quorum.{quorum_floor}
use seismograph.Scorer.{ChangePointResult}

-- `zset` reads a sorted set whole, as members with their scores (a missing key is an empty set).
pub record Redis : Type 1 where
  pub Store : Type 0
  pub zset : String → Store → Dict String ℕ
  pub zadd : String → String → ℕ → Store → Store
  -- ZREMRANGEBYSCORE key -inf (cutoff
  pub zrembelow : String → ℕ → Store → Store
  pub zcount : String → ℕ → ℕ → Store → ℕ
  pub expire : String → ℕ → Store → Store
  pub delete : String → Store → Store

-- What the commands do to the sorted sets.
pub record RedisLaws (rd : Redis) : Type 0 where
  pub zset-Distinct : (k : String) (st : rd.Store) → Distinct (keys (rd.zset k st))
  pub zset-zadd :
      (k m j n : String) (s : ℕ) (st : rd.Store)
      → get n (rd.zset j (rd.zadd k m s st))
        ≡ (if both (k == j) (m == n) then some s else get n (rd.zset j st))
  pub zset-zrembelow :
      (k j n : String) (c : ℕ) (st : rd.Store)
      → get n (rd.zset j (rd.zrembelow k c st))
        ≡ (if k == j then retain (leb c) (get n (rd.zset j st)) else get n (rd.zset j st))
  pub zcount-zset :
      (k : String) (lo hi : ℕ) (st : rd.Store)
      → rd.zcount k lo hi st ≡ length (keep (λ e. both (leb lo e.1) (leb e.1 hi)) (rd.zset k st))
  pub zset-expire :
      (k j : String) (seconds : ℕ) (st : rd.Store)
      → rd.zset j (rd.expire k seconds st) ≡ rd.zset j st
  pub zset-delete :
      (k j n : String) (st : rd.Store)
      → get n (rd.zset j (rd.delete k st)) ≡ (if k == j then none else get n (rd.zset j st))

-- _NS_PER_MS
abbrev pub ns_per_ms : ℕ
ns_per_ms = 1000000

unfoldable pub agree_key : String → String → String → String
agree_key model_tuple metric_name suite_version =
    "sg:quorum:" ++ model_tuple ++ ":" ++ suite_version ++ ":" ++ metric_name

unfoldable pub obs_key : String → String → String → String
obs_key model_tuple metric_name suite_version =
    "sg:observers:" ++ model_tuple ++ ":" ++ suite_version ++ ":" ++ metric_name

pub record RedisScorer : Type 0 where
  pub floor : ℕ
  pub ttl_ms : ℕ
  pub frac_num : ℕ
  pub frac_den : ℕ
  pub backstop_s : ℕ

-- `__init__`, without the client
unfoldable pub init_redis : Option ℕ → ℕ → ℕ → ℕ → RedisScorer
init_redis quorum ttl_ns frac_num frac_den = record {
  floor = or_default quorum_floor quorum;
  ttl_ms = ttl_ns / ns_per_ms;
  frac_num = frac_num;
  frac_den = frac_den;
  backstop_s = max 1 (2 * ttl_ns / 1000000000);
}

-- `_stamp_ms`, where `now` is what the clock reads, in nanoseconds
unfoldable pub stamp_ms : Option ℕ → ℕ → ℕ
stamp_ms none now = now / ns_per_ms
stamp_ms (some t) now = if t == 0 then now / ns_per_ms else t / ns_per_ms

module _ (rd : Redis) where
  unfoldable pub observe_redis :
      RedisScorer → String → String → String → Option ℕ → String → ℕ → rd.Store → rd.Store
  observe_redis r model_tuple metric_name org_id timestamp_ns suite_version now st =
      let ts = stamp_ms timestamp_ns now in
      let okey = obs_key model_tuple metric_name suite_version in
      rd.expire okey r.backstop_s (rd.zadd okey org_id ts st)

  -- the loop of `ingest`
  unfoldable pub zadd_orgs : Bool → String → String → ℕ → List String → rd.Store → rd.Store
  zadd_orgs change_detected akey okey ts [] st = st
  zadd_orgs change_detected akey okey ts (org_id ∷ orgs) st =
      let seen = rd.zadd okey org_id ts st in
      zadd_orgs change_detected akey okey ts orgs
        (if change_detected then rd.zadd akey org_id ts seen else seen)

  -- `ingest` on the result's orgs: no org, no command
  unfoldable pub ingest_named :
      {R : Type 0} → RedisScorer → ChangePointResult R → ℕ → List String → rd.Store → rd.Store
  ingest_named r result now [] st = st
  ingest_named r result now (org ∷ orgs) st =
      let ts = stamp_ms (some result.timestamp_ns) now in
      let akey = agree_key result.model_tuple result.metric_name result.suite_version in
      let okey = obs_key result.model_tuple result.metric_name result.suite_version in
      let added = zadd_orgs result.change_detected akey okey ts (org ∷ orgs) st in
      let kept = rd.expire okey r.backstop_s added in
      if result.change_detected then rd.expire akey r.backstop_s kept else kept

  unfoldable pub ingest_redis :
      {R : Type 0} → RedisScorer → ChangePointResult R → ℕ → rd.Store → rd.Store
  unfolding ingest_named
  ingest_redis r result now st = ingest_named r result now result.contributing_orgs st

  -- _PROMOTE_LUA_SCRIPT, from the counts on
  unfoldable pub promote_counts : String → String → ℕ → ℕ → ℕ → ℕ → ℕ → rd.Store → ℕ × rd.Store
  promote_counts akey okey cutoff now floor fnum fden st =
      let agree = rd.zcount akey cutoff now st in
      if agree == 0
      then (0, st)
      else (let observers = rd.zcount okey cutoff now st in
          let pop = if ltb observers agree then agree else observers in
          let scaled = (fnum * pop + fden - 1) / fden in
          let q = if ltb floor scaled then scaled else floor in
          if leb q agree then (agree, rd.delete akey st) else (0, st))

  -- the whole script: both sets lose their stale members first
  unfoldable pub promote_script : String → String → ℕ → ℕ → ℕ → ℕ → ℕ → rd.Store → ℕ × rd.Store
  unfolding promote_counts
  promote_script akey okey cutoff now floor fnum fden st =
      promote_counts akey okey cutoff now floor fnum fden
        (rd.zrembelow okey cutoff (rd.zrembelow akey cutoff st))

  -- A cutoff below 0 is 0 here, which no score is below.
  unfoldable pub promote_redis :
      RedisScorer → String → String → ℕ → String → rd.Store → Option ℕ × rd.Store
  unfolding promote_script
  promote_redis r model_tuple metric_name now_ns suite_version st =
      let now_ms = now_ns / ns_per_ms in
      let cutoff = now_ms - r.ttl_ms in
      let akey = agree_key model_tuple metric_name suite_version in
      let okey = obs_key model_tuple metric_name suite_version in
      let (result, after) =
        promote_script akey okey cutoff now_ms r.floor r.frac_num r.frac_den st in
      (if result == 0 then none else some result, after)

  unfoldable pub clear_redis : String → String → String → rd.Store → rd.Store
  clear_redis model_tuple metric_name suite_version st =
      rd.delete (agree_key model_tuple metric_name suite_version) st
