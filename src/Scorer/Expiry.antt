-- ===== src/Scorer/Expiry.antt =====
-- Old candidates and unanimous streams of the quorum gate.
use seismograph.Prelude.{
  ◌⊎◌, ℕ, ◌+◌, ◌≤◌, ◌<◌, String, Triple, ◌≡◌, refl, ap, none, some, [], ◌∷◌, arith, length, keep,
  map, All, triple_eq, string_eq,
}
use seismograph.Quorum.{quorum_floor, quorum_frac_num, quorum_frac_den}
use seismograph.Quorum.Bounds.{default_quorum_bounds}
use seismograph.Scorer.{Scorer, Table, bucket_of, is_live, live_orgs, promote_to_public_alert}
use seismograph.Scorer.Gate.{agreeing, population, promote-outcome}

keep_stale :
    (s : Scorer) (now : ℕ) (t : Table)
    → All (λ e. e.1 + s.ttl_ns < now) t
    → keep (is_live s now) t ≡ []
keep_stale s now [] h = refl
keep_stale s now (e ∷ t) h = ground (arith, keep_stale s now t h.1)

live_orgs_stale :
    (s : Scorer) (now : ℕ) (t : Table) → All (λ e. e.1 + s.ttl_ns < now) t → live_orgs s t now ≡ []
unfolding live_orgs
live_orgs_stale s now t h = ap (map (λ e. e.0)) (keep_stale s now t h)

-- When every candidate of a stream is older than the window, the stream is not promoted, however
-- many orgs brought one.
pub promote_expired :
    (s : Scorer) (mt metric : String) (now : ℕ) (suite : String)
    → All (λ e. e.1 + s.ttl_ns < now) (bucket_of (mt, suite, metric) s.agree)
    → (promote_to_public_alert s mt metric now suite).0 ≡ none
promote_expired s mt metric now suite old =
    rw (promote-outcome, live_orgs_stale s now (bucket_of (mt, suite, metric) s.agree) old)

-- With the repository's floor and fraction, three or more live agreeing orgs promote whenever no
-- other org watches the stream; up to nine watching orgs three agreeing ones are enough.
pub promote_reachable :
    (s : Scorer) (mt metric : String) (now : ℕ) (suite : String)
    → s.floor ≡ quorum_floor
    → s.frac_num ≡ quorum_frac_num
    → s.frac_den ≡ quorum_frac_den
    → 3 ≤ length (agreeing s (mt, suite, metric) now)
    → (population s (mt, suite, metric) now ≤ 9)
      ⊎ (population s (mt, suite, metric) now ≤ length (agreeing s (mt, suite, metric) now))
    → (promote_to_public_alert s mt metric now suite).0
      ≡ some (length (agreeing s (mt, suite, metric) now))
promote_reachable s mt metric now suite f n d three few =
    let k : Triple = (mt, suite, metric) in
    rw (promote-outcome, f, n, d) (ground (arith, default_quorum_bounds (population s k now)))
