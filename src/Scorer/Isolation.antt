-- ===== src/Scorer/Isolation.antt =====
-- Streams of the scorer do not touch one another (ENG-1: a bucket per suite).
use seismograph.Prelude.{
  ℕ, String, Triple, ◌≡◌, refl, ◌∙◌, sym, Bool, true, false, Option, some, List, [], ◌∷◌, ◌==◌,
  if◌then◌else◌, All, map, keep, both, leb, ◌-◌, triple_eq, string_eq, inl, inr,
}
use seismograph.Dict.{or_default, get, get-put, get-remove}
use seismograph.Scorer.{
  Scorer, ChangePointResult, Table, live_orgs, record_in, observe, ingest, ingest_org, ingest_orgs,
  clear, promote_to_public_alert, stamp,
}
use seismograph.Scorer.Gate.{promote_cases, promote-outcome, outcome}
use seismograph.Scorer.History.{Call, observes, ingests, promotes, clears, stream_of, step, run}

-- Both tables of a stream, and the settings, are the same in two states.
pub record SameStream (k : Triple) (s t : Scorer) : Type 0 where
  pub agree : get k s.agree ≡ get k t.agree
  pub observers : get k s.observers ≡ get k t.observers
  pub floor : s.floor ≡ t.floor
  pub ttl_ns : s.ttl_ns ≡ t.ttl_ns
  pub frac_num : s.frac_num ≡ t.frac_num
  pub frac_den : s.frac_den ≡ t.frac_den

SameStream-trans :
    {k : Triple} {s t u : Scorer} → SameStream k s t → SameStream k t u → SameStream k s u
SameStream-trans p q = record {
  agree = p.agree ∙ q.agree;
  observers = p.observers ∙ q.observers;
  floor = p.floor ∙ q.floor;
  ttl_ns = p.ttl_ns ∙ q.ttl_ns;
  frac_num = p.frac_num ∙ q.frac_num;
  frac_den = p.frac_den ∙ q.frac_den;
}

SameStream-refl : {k : Triple} {s : Scorer} → SameStream k s s
SameStream-refl = record {
  agree = refl;
  observers = refl;
  floor = refl;
  ttl_ns = refl;
  frac_num = refl;
  frac_den = refl;
}

record_in_ne :
    (j k : Triple) (org : String) (ts : ℕ) (tables : List (Triple × Table))
    → (j == k) ≡ false
    → get k (record_in j org ts tables) ≡ get k tables
unfolding record_in
record_in_ne j k org ts tables ne = rw (get-put j k _ tables, ne)

-- Two states that agree on the stream, chosen by a test.
if-SameStream :
    (b : Bool) {k : Triple} {s t u : Scorer}
    → SameStream k s u
    → SameStream k t u
    → SameStream k (if b then s else t) u
if-SameStream true p q = p
if-SameStream false p q = q

observe-SameStream :
    (k : Triple) (s : Scorer) (mt metric org : String) (ts : Option ℕ) (suite : String) (now : ℕ)
    → ((mt, suite, metric) == k) ≡ false
    → SameStream k (observe s mt metric org ts suite now) s
unfolding observe
observe-SameStream k s mt metric org ts suite now ne = record {
  agree = refl;
  observers = record_in_ne (mt, suite, metric) k org (stamp ts now) s.observers ne;
  floor = refl;
  ttl_ns = refl;
  frac_num = refl;
  frac_den = refl;
}

clear-SameStream :
    (k : Triple) (s : Scorer) (mt metric suite : String)
    → ((mt, suite, metric) == k) ≡ false
    → SameStream k (clear s mt metric suite) s
unfolding clear
clear-SameStream k s mt metric suite ne = record {
  agree = rw (get-remove (mt, suite, metric) k s.agree, ne);
  observers = refl;
  floor = refl;
  ttl_ns = refl;
  frac_num = refl;
  frac_den = refl;
}

module _ {R : Type 0} (k : Triple) (result : ChangePointResult R) (ts now : ℕ) where
  ingest_org-SameStream :
      (s : Scorer) (org : String)
      → (stream_of (ingests result) == k) ≡ false
      → SameStream k (ingest_org s result ts now org) s
  unfolding ingest_org
  ingest_org-SameStream s org ne =
      let seen =
        observe-SameStream k s result.model_tuple result.metric_name org (some ts)
          result.suite_version now ne in
      if-SameStream result.change_detected
        (record {
          agree = record_in_ne (stream_of (ingests result)) k org ts s.agree ne;
          observers = seen.observers;
          floor = refl;
          ttl_ns = refl;
          frac_num = refl;
          frac_den = refl;
        })
        seen

  ingest_orgs-SameStream :
      (s : Scorer) (orgs : List String)
      → (stream_of (ingests result) == k) ≡ false
      → SameStream k (ingest_orgs s result ts now orgs) s
  unfolding ingest_orgs
  ingest_orgs-SameStream s [] ne = SameStream-refl
  ingest_orgs-SameStream s (org ∷ orgs) ne =
      SameStream-trans (ingest_orgs-SameStream (ingest_org s result ts now org) orgs ne)
        (ingest_org-SameStream s org ne)

promote-SameStream :
    (k : Triple) (s : Scorer) (mt metric : String) (now : ℕ) (suite : String)
    → ((mt, suite, metric) == k) ≡ false
    → SameStream k (promote_to_public_alert s mt metric now suite).1 s
promote-SameStream k s mt metric now suite ne = elim (promote_cases s mt metric now suite) [
  | inl e ↦ rw e SameStream-refl
  | inr e ↦ rw e (clear-SameStream k s mt metric suite ne)
]

-- A call about another stream leaves a stream's candidates, observers and settings as they were.
pub step-SameStream :
    {R : Type 0} (k : Triple) (s : Scorer) (now : ℕ) (c : Call R)
    → (stream_of c == k) ≡ false
    → SameStream k (step s (now, c)) s
unfolding step ingest
step-SameStream k s now (observes mt metric org ts suite) ne =
    observe-SameStream k s mt metric org ts suite now ne
step-SameStream k s now (ingests result) ne =
    ingest_orgs-SameStream k result _ now s result.contributing_orgs ne
step-SameStream k s now (promotes mt metric suite) ne =
    promote-SameStream k s mt metric now suite ne
step-SameStream k s now (clears mt metric suite) ne = clear-SameStream k s mt metric suite ne

-- A history that never names a stream leaves that stream as it was, so a promotion of it decides
-- the same as before the history.
pub run-SameStream :
    {R : Type 0} (k : Triple) (s : Scorer) (calls : List (ℕ × Call R))
    → All (λ c. (stream_of c.1 == k) ≡ false) calls
    → SameStream k (run s calls) s
unfolding run
run-SameStream k s [] h = SameStream-refl
run-SameStream k s ((now, c) ∷ cs) h =
    SameStream-trans (run-SameStream k (step s (now, c)) cs h.1) (step-SameStream k s now c h.0)

live-SameStream :
    (s t : Scorer) {o p : Option Table} (now : ℕ)
    → s.ttl_ns ≡ t.ttl_ns
    → o ≡ p
    → live_orgs s (or_default [] o) now ≡ live_orgs t (or_default [] p) now
unfolding live_orgs
live-SameStream s t now e f =
    λ i. map (λ x. x.0) (keep (λ x. both (leb (now - e i) x.1) (leb x.1 now)) (or_default [] (f i)))

pub promote-SameResult :
    (mt metric suite : String) (s t : Scorer) (now : ℕ)
    → SameStream (mt, suite, metric) s t
    → (promote_to_public_alert s mt metric now suite).0
      ≡ (promote_to_public_alert t mt metric now suite).0
promote-SameResult mt metric suite s t now same =
    let obs = live-SameStream s t now same.ttl_ns same.observers in
    let agr = live-SameStream s t now same.ttl_ns same.agree in
    promote-outcome s mt metric now suite
    ∙ (λ i. outcome (same.floor i) (same.frac_num i) (same.frac_den i) (obs i) (agr i))
    ∙ sym (promote-outcome t mt metric now suite)

-- A history whose calls never name a stream does not change what a promotion of it returns.
pub promote-run_others :
    {R : Type 0} (mt metric suite : String) (s : Scorer) (now : ℕ) (calls : List (ℕ × Call R))
    → All (λ c. (stream_of c.1 == (mt, suite, metric)) ≡ false) calls
    → (promote_to_public_alert (run s calls) mt metric now suite).0
      ≡ (promote_to_public_alert s mt metric now suite).0
promote-run_others mt metric suite s now calls h =
    promote-SameResult mt metric suite (run s calls) s now
      (run-SameStream (mt, suite, metric) s calls h)
