-- ===== src/Scorer/Sybil.antt =====
-- Fewer orgs than the floor never promote, whatever the calls: the Sybil argument of the floor.
use seismograph.Prelude.{
  ℕ, ◌≤◌, ◌<◌, String, Triple, ◌≡◌, refl, Bool, true, false, Option, none, some, List, [], ◌∷◌,
  length, keep, arith, ◌==◌, both, if◌then◌else◌, triple_eq, string_eq, inl, inr, Bool-cases, All,
  leb,
}
use mathlib.Core.Path.{subst, sym}
use seismograph.Prelude.Eq.{triple_beq_iff}
use seismograph.Prelude.Int.{pos}
use seismograph.Quorum.{quorum_floor, required_quorum}
use seismograph.Quorum.Bounds.{required_quorum-ge}
use seismograph.Dict.{Dict, get, get-put, get-remove, or_default}
use seismograph.Dict.Keys.{
  contains, Distinct, Within, length_of_Within, keys, Distinct-put, Within-put, Within-keep,
  Distinct-keep,
}
use seismograph.Scorer.{
  Scorer, ChangePointResult, Table, record_latest, record_in, bucket_of, observe, ingest,
  ingest_org, ingest_orgs, clear, promote_to_public_alert, live_orgs, is_live, init,
}
use seismograph.Scorer.Gate.{promote_cases, promote-outcome, agreeing, population}
use seismograph.Scorer.History.{Call, observes, ingests, promotes, clears, stream_of, step, run}

-- The candidates of a stream come from the listed orgs, no org twice.
abbrev pub OnlyFrom : List String → Table → Type 0
OnlyFrom orgs table = Distinct (keys table) × Within (keys table) orgs

record_latest-OnlyFrom :
    (orgs : List String) (org : String) (ts : ℕ) (t : Table)
    → contains org orgs ≡ true
    → OnlyFrom orgs t
    → OnlyFrom orgs (record_latest org ts t)
unfolding record_latest
record_latest-OnlyFrom orgs org ts t known h =
    elim (Bool-cases (leb (or_default 0 (get org t)) ts)) [
      | inl later ↦ rw later (Distinct-put org ts t h.0, Within-put org ts t orgs known h.1)
      | inr earlier ↦ rw earlier h
    ]

-- On the stream `k` the call brings candidates of the listed orgs only.
abbrev pub FiresOnly : {R : Type 0} → List String → Triple → Call R → Type 0
FiresOnly orgs k (ingests result) =
    (stream_of (ingests result) == k) ≡ true
    → result.change_detected ≡ true
    → Within result.contributing_orgs orgs
FiresOnly orgs k _ = Unit

pub record Confined (orgs : List String) (k : Triple) (floor : ℕ) (s : Scorer) : Type 0 where
  pub only : OnlyFrom orgs (bucket_of k s.agree)
  pub floor_kept : s.floor ≡ floor

module _ (orgs : List String) (k : Triple) (floor : ℕ) where
  record_in-OnlyFrom :
      (j : Triple) (org : String) (ts : ℕ) (tables : Dict Triple Table)
      → ((j == k) ≡ true → contains org orgs ≡ true)
      → OnlyFrom orgs (bucket_of k tables)
      → OnlyFrom orgs (bucket_of k (record_in j org ts tables))
  unfolding record_in
  record_in-OnlyFrom j org ts tables known h = elim (Bool-cases (j == k)) [
    | inl here ↦
        rw (get-put j k _ tables, here)
          (record_latest-OnlyFrom orgs org ts (bucket_of j tables) (known here)
            (subst (λ x. OnlyFrom orgs (bucket_of x tables)) (sym ((triple_beq_iff j k).0 here)) h))
    | inr other ↦ rw (get-put j k _ tables, other) h
  ]

  if-Confined :
      (b : Bool) {s t : Scorer}
      → (b ≡ true → Confined orgs k floor s)
      → Confined orgs k floor t
      → Confined orgs k floor (if b then s else t)
  if-Confined true p q = p refl
  if-Confined false p q = q

  pub clear-Confined :
      (s : Scorer) (mt metric suite : String)
      → Confined orgs k floor s
      → Confined orgs k floor (clear s mt metric suite)
  unfolding clear
  clear-Confined s mt metric suite h = record {
    only = elim (Bool-cases ((mt, suite, metric) == k)) [
      | inl here ↦ rw (get-remove (mt, suite, metric) k s.agree, here) (tt, tt)
      | inr other ↦ rw (get-remove (mt, suite, metric) k s.agree, other) h.only
    ];
    floor_kept = h.floor_kept;
  }

  module _ {R : Type 0} (result : ChangePointResult R) (ts now : ℕ) where
    ingest_org-Confined :
        (s : Scorer) (org : String)
        → ((stream_of (ingests result) == k) ≡ true
            → result.change_detected ≡ true
            → contains org orgs ≡ true)
        → Confined orgs k floor s
        → Confined orgs k floor (ingest_org s result ts now org)
    unfolding ingest_org
    ingest_org-Confined s org known h =
        if-Confined result.change_detected
          (λ fired. record {
            only =
                record_in-OnlyFrom (stream_of (ingests result)) org ts s.agree
                  (λ here. known here fired) h.only;
            floor_kept = h.floor_kept;
          })
          (record { only = h.only; floor_kept = h.floor_kept })

    ingest_orgs-Confined :
        (s : Scorer) (fired : List String)
        → ((stream_of (ingests result) == k) ≡ true
            → result.change_detected ≡ true
            → Within fired orgs)
        → Confined orgs k floor s
        → Confined orgs k floor (ingest_orgs s result ts now fired)
    unfolding ingest_orgs
    ingest_orgs-Confined s [] known h = h
    ingest_orgs-Confined s (org ∷ rest) known h =
        ingest_orgs-Confined (ingest_org s result ts now org) rest (λ p q. (known p q).1)
          (ingest_org-Confined s org (λ p q. (known p q).0) h)

  pub promote-Confined :
      (s : Scorer) (mt metric : String) (now : ℕ) (suite : String)
      → Confined orgs k floor s
      → Confined orgs k floor (promote_to_public_alert s mt metric now suite).1
  promote-Confined s mt metric now suite h = elim (promote_cases s mt metric now suite) [
    | inl e ↦ rw e h
    | inr e ↦ rw e (clear-Confined s mt metric suite h)
  ]

  pub step-Confined :
      {R : Type 0} (s : Scorer) (now : ℕ) (c : Call R)
      → FiresOnly orgs k c
      → Confined orgs k floor s
      → Confined orgs k floor (step s (now, c))
  unfolding step ingest observe
  step-Confined s now (observes mt metric org ts suite) f h = record {
    only = h.only;
    floor_kept = h.floor_kept;
  }
  step-Confined s now (ingests result) f h =
      ingest_orgs-Confined result _ now s result.contributing_orgs f h
  step-Confined s now (promotes mt metric suite) f h = promote-Confined s mt metric now suite h
  step-Confined s now (clears mt metric suite) f h = clear-Confined s mt metric suite h

  run-Confined :
      {R : Type 0} (s : Scorer) (calls : List (ℕ × Call R))
      → All (λ c. FiresOnly orgs k c.1) calls
      → Confined orgs k floor s
      → Confined orgs k floor (run s calls)
  unfolding run
  run-Confined s [] f h = h
  run-Confined s ((now, c) ∷ cs) f h =
      run-Confined (step s (now, c)) cs f.1 (step-Confined s now c f.0 h)

live_orgs-le :
    (s : Scorer) (orgs : List String) (t : Table) (now : ℕ)
    → OnlyFrom orgs t
    → length (live_orgs s t now) ≤ length orgs
unfolding live_orgs
live_orgs-le s orgs t now h =
    length_of_Within (keys (keep (is_live s now) t)) orgs (Distinct-keep (is_live s now) t h.0)
      (Within-keep (is_live s now) t orgs h.1)

outcome_below :
    (population floor num den n : ℕ)
    → n < floor
    → (if both (leb 1 n) (leb (required_quorum (pos population) floor num den) n)
        then some n
        else none)
      ≡ none
outcome_below population floor num den n h =
    ground (arith, required_quorum-ge (pos population) floor num den)

-- A promotion over fewer orgs than the floor returns none.
pub promote-Confined-none :
    (orgs : List String) (s : Scorer) (mt metric suite : String) (floor now : ℕ)
    → Confined orgs (mt, suite, metric) floor s
    → length orgs < floor
    → (promote_to_public_alert s mt metric now suite).0 ≡ none
promote-Confined-none orgs s mt metric suite floor now h few =
    let k : Triple = (mt, suite, metric) in
    rw promote-outcome (
      outcome_below (population s k now) s.floor s.frac_num s.frac_den (length (agreeing s k now))
        (omega (arith, live_orgs-le s orgs (bucket_of k s.agree) now h.only, h.floor_kept)))

-- However often and in whatever order the calls come, with whatever clock: if fewer distinct orgs
-- than the floor ever bring a candidate on a stream, a promotion of that stream returns none.
pub promote_blocked :
    {R : Type 0} (mt metric suite : String) (quorum : Option ℕ) (ttl num den now : ℕ)
    (orgs : List String) (calls : List (ℕ × Call R))
    → All (λ c. FiresOnly orgs (mt, suite, metric) c.1) calls
    → length orgs < or_default quorum_floor quorum
    → (promote_to_public_alert (run (init quorum ttl num den) calls) mt metric now suite).0 ≡ none
unfolding init
promote_blocked mt metric suite quorum ttl num den now orgs calls from few =
    let k : Triple = (mt, suite, metric) in
    let floor = or_default quorum_floor quorum in
    promote-Confined-none orgs (run (init quorum ttl num den) calls) mt metric suite floor now
      (run-Confined orgs k floor (init quorum ttl num den) calls from
        (record { only = (tt, tt); floor_kept = refl }))
      few
