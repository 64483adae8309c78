-- ===== src/Scorer.antt =====
-- engine/correlation.py: `ChangePointResult` and `AgreementScorer`, the cross-observer quorum gate.
-- The clock is an argument, `now`: the value that `_now_ns` reads when the method runs. Timestamps
-- are nanoseconds since the epoch, natural numbers.
pub mod Gate
pub mod History
pub mod Expiry
pub mod Isolation
pub mod Sybil
mod Examples
use seismograph.Prelude.{
  ℕ, zero, suc, ◌+◌, ◌-◌, ◌≡◌, String, Triple, Bool, Option, none, some, List, [], ◌∷◌, map, leb,
  length, keep, both, if◌then◌else◌, max, triple_eq, string_eq, nat_eq, ◌==◌,
}
use seismograph.Prelude.Int.{pos}
use seismograph.Quorum.{
  required_quorum, quorum_floor, quorum_frac_num, quorum_frac_den, default_ttl_ns,
}
use seismograph.Dict.{Dict, get, put, remove, or_default}

-- `R` is the type of the detector's floating-point numbers, which the scorer only carries.
pub record ChangePointResult (R : Type 0) : Type 0 where
  pub model_tuple : String
  pub change_detected : Bool
  pub score : R
  pub threshold : R
  pub contributing_orgs : List String
  pub metric_name : String
  pub timestamp_ns : ℕ
  pub suite_version : String

abbrev pub Table : Type 0
Table = Dict String ℕ

pub record Scorer : Type 0 where
  pub floor : ℕ
  pub ttl_ns : ℕ
  pub frac_num : ℕ
  pub frac_den : ℕ
  pub agree : Dict Triple Table
  pub observers : Dict Triple Table

-- `__init__`, where `quorum` overrides the floor
unfoldable pub init : Option ℕ → ℕ → ℕ → ℕ → Scorer
init quorum ttl_ns frac_num frac_den = record {
  floor = or_default quorum_floor quorum;
  ttl_ns = ttl_ns;
  frac_num = frac_num;
  frac_den = frac_den;
  agree = [];
  observers = [];
}

abbrev pub default_scorer : Scorer
default_scorer = record {
  floor = quorum_floor;
  ttl_ns = default_ttl_ns;
  frac_num = quorum_frac_num;
  frac_den = quorum_frac_den;
  agree = [];
  observers = [];
}

-- `timestamp_ns if timestamp_ns else self._now_ns()`: 0 counts as not given
unfoldable pub stamp : Option ℕ → ℕ → ℕ
stamp none now = now
stamp (some t) now = if t == 0 then now else t

-- A later timestamp replaces an earlier one, never the other way round.
unfoldable pub record_latest : String → ℕ → Table → Table
record_latest org ts bucket =
    if leb (or_default 0 (get org bucket)) ts then put org ts bucket else bucket

-- `self._agree.get(key, {})`, `setdefault(key, {})`
abbrev pub bucket_of : Triple → Dict Triple Table → Table
bucket_of key tables = or_default [] (get key tables)

-- `setdefault` on the bucket, then the write into it
unfoldable pub record_in : Triple → String → ℕ → Dict Triple Table → Dict Triple Table
unfolding record_latest
record_in key org ts tables = put key (record_latest org ts (bucket_of key tables)) tables

unfoldable pub observe : Scorer → String → String → String → Option ℕ → String → ℕ → Scorer
unfolding stamp record_in
observe s model_tuple metric_name org_id timestamp_ns suite_version now =
    let ts = stamp timestamp_ns now in
    record s {
      observers = record_in (model_tuple, suite_version, metric_name) org_id ts s.observers;
    }

-- One turn of the loop of `ingest`.
unfoldable pub ingest_org : {R : Type 0} → Scorer → ChangePointResult R → ℕ → ℕ → String → Scorer
unfolding observe record_in
ingest_org s result ts now org_id =
    let seen =
      observe s result.model_tuple result.metric_name org_id (some ts) result.suite_version now in
    let key : Triple = (result.model_tuple, result.suite_version, result.metric_name) in
    if result.change_detected
    then record seen { agree = record_in key org_id ts seen.agree }
    else seen

unfoldable pub ingest_orgs :
    {R : Type 0} → Scorer → ChangePointResult R → ℕ → ℕ → List String → Scorer
unfolding ingest_org
ingest_orgs s result ts now [] = s
ingest_orgs s result ts now (org ∷ orgs) =
    ingest_orgs (ingest_org s result ts now org) result ts now orgs

-- A result that names no org leaves the loop at once.
unfoldable pub ingest : {R : Type 0} → Scorer → ChangePointResult R → ℕ → Scorer
unfolding ingest_orgs stamp
ingest s result now =
    ingest_orgs s result (stamp (some result.timestamp_ns) now) now result.contributing_orgs

-- `cutoff <= ts <= now_ns`. A cutoff below 0 is 0 here, which no timestamp is below.
abbrev pub is_live : Scorer → ℕ → String × ℕ → Bool
is_live s now (_, ts) = both (leb (now - s.ttl_ns) ts) (leb ts now)

unfoldable pub live_orgs : Scorer → Table → ℕ → List String
live_orgs s table now = map (λ e. e.0) (keep (is_live s now) table)

unfoldable pub clear : Scorer → String → String → String → Scorer
clear s model_tuple metric_name suite_version = record s {
  agree = remove (model_tuple, suite_version, metric_name) s.agree;
}

-- The end of `promote_to_public_alert`, from the set of live agreeing orgs on.
unfoldable pub decide : Scorer → String → String → ℕ → String → List String → Option ℕ × Scorer
unfolding live_orgs required_quorum clear
decide s model_tuple metric_name now suite_version [] = (none, s)
decide s model_tuple metric_name now suite_version (org ∷ orgs) =
    let live_agree = org ∷ orgs in
    let obs_tbl = bucket_of (model_tuple, suite_version, metric_name) s.observers in
    let live_obs = live_orgs s obs_tbl now in
    let population = max (length live_obs) (length live_agree) in
    let q = required_quorum (pos population) s.floor s.frac_num s.frac_den in
    if leb q (length live_agree)
    then (some (length live_agree), clear s model_tuple metric_name suite_version)
    else (none, s)

-- `if not agree_tbl: return None`: no bucket, or an empty one
unfoldable pub promote_from :
    Scorer → String → String → ℕ → String → Option Table → Option ℕ × Scorer
unfolding decide
promote_from s model_tuple metric_name now suite_version none = (none, s)
promote_from s model_tuple metric_name now suite_version (some []) = (none, s)
promote_from s model_tuple metric_name now suite_version (some (e ∷ table)) =
    decide s model_tuple metric_name now suite_version (live_orgs s (e ∷ table) now)

unfoldable pub promote_to_public_alert : Scorer → String → String → ℕ → String → Option ℕ × Scorer
unfolding promote_from
promote_to_public_alert s model_tuple metric_name now suite_version =
    promote_from s model_tuple metric_name now suite_version
      (get (model_tuple, suite_version, metric_name) s.agree)
