-- ===== src/Scorer/Gate.antt =====
-- What `promote_to_public_alert` decides, in terms of the live tables of the stream.
use mathlib.Core.Logic.{◌⊎◌}
use seismograph.Prelude.{
  ℕ, ◌*◌, ◌≤◌, ◌<◌, ◌≡◌, refl, ap, sym, inl, inr, ◌↔◌, String, Triple, Bool, true, false, Option,
  none, some, List, [], ◌∷◌, leb, length, both, if◌then◌else◌, max, triple_eq, string_eq, ◌==◌,
  arith, Bool-cases,
}
use mathlib.Core.Path.{subst}
use seismograph.Prelude.Int.{pos}
use seismograph.Quorum.{required_quorum}
use seismograph.Quorum.Bounds.{mul_mono, required_quorum_least}
use seismograph.Dict.{get, get-remove, or_default}
use seismograph.Scorer.{
  Scorer, Table, bucket_of, live_orgs, clear, decide, promote_from, promote_to_public_alert,
}

-- The orgs whose candidate on the stream is live, and the size of the live population.
abbrev pub agreeing : Scorer → Triple → ℕ → List String
agreeing s key now = live_orgs s (bucket_of key s.agree) now

abbrev pub population : Scorer → Triple → ℕ → ℕ
population s key now =
    max (length (live_orgs s (bucket_of key s.observers) now)) (length (agreeing s key now))

abbrev quorum_at : Scorer → Triple → ℕ → ℕ
quorum_at s key now = required_quorum (pos (population s key now)) s.floor s.frac_num s.frac_den

quorum_iff :
    (n q floor share den : ℕ)
    → floor ≤ q
    → share ≤ q * den
    → (floor ≤ n → share ≤ n * den → q ≤ n)
    → (both (leb 1 n) (leb q n) ≡ true) ↔ ((0 < n) × (floor ≤ n) × (share ≤ n * den))
quorum_iff n q floor share den low reach least =
    (λ h. (ground arith, ground arith, mul_mono den reach (ground arith)), λ h. ground arith)

-- The result of the call is a count exactly if the test passed on that count.
result_iff :
    {A : Type 0} (b : Bool) (n c : ℕ) (s t : A) (P : ℕ → Type 0)
    → ((b ≡ true) ↔ P n)
    → ((let r : Option ℕ × A = if b then (some n, t) else (none, s) in r.0) ≡ some c)
      ↔ ((c ≡ n) × P c)
result_iff true n c s t P iff =
    (λ h. let e : c ≡ n = cc in (e, subst P (sym e) (iff.0 refl)), λ h. cc)
result_iff false n c s t P iff = (λ h. cc, λ h. cc (iff.1 (subst P h.0 h.1)))

-- The returned value, as a function of the settings and the two live sets.
abbrev pub outcome : ℕ → ℕ → ℕ → List String → List String → Option ℕ
outcome floor num den live_obs live =
    if both (leb 1 (length live)) (
      leb (required_quorum (pos (max (length live_obs) (length live))) floor num den) (length live))
    then some (length live)
    else none

if-fst :
    {A B : Type 0} (b : Bool) (x y : A) (u v : B)
    → (let r : A × B = if b then (x, u) else (y, v) in r.0) ≡ (if b then x else y)
if-fst true x y u v = refl
if-fst false x y u v = refl

module _ (s : Scorer) (mt metric : String) (now : ℕ) (suite : String) where
  abbrev key : Triple
  key = (mt, suite, metric)

  abbrev passes : List String → Bool
  passes live = both (leb 1 (length live)) (leb (quorum_at s key now) (length live))

  -- The early returns are the case of no live org.
  abbrev verdict : List String → Option ℕ × Scorer
  verdict live = if passes live then (some (length live), clear s mt metric suite) else (none, s)

  decide_lem :
      (live : List String)
      → live ≡ agreeing s key now
      → decide s mt metric now suite live ≡ verdict (agreeing s key now)
  unfolding decide
  decide_lem [] e = rw (← e)
  decide_lem (org ∷ orgs) e = let t = quorum_at s key now in rw (← e) (ground arith)

  promote_lem :
      (o : Option Table)
      → o ≡ get key s.agree
      → promote_from s mt metric now suite o ≡ verdict (agreeing s key now)
  unfolding promote_from live_orgs
  promote_lem none e = rw (← e) refl
  promote_lem (some []) e = rw (← e) refl
  promote_lem (some (x ∷ t)) e =
      decide_lem (live_orgs s (x ∷ t) now) (ap (λ o. live_orgs s (or_default [] o) now) e)

  pub promote-verdict : promote_to_public_alert s mt metric now suite ≡ verdict (agreeing s key now)
  unfolding promote_to_public_alert
  promote-verdict = promote_lem (get key s.agree) refl

  -- Where the denominator is positive, the call returns a count exactly when that count is the
  -- number of live agreeing orgs of the stream, is not 0, is at least the floor, and its multiple
  -- by the denominator reaches the numerator's multiple of the live population.
  pub promote_iff_quorum :
      (c : ℕ)
      → 0 < s.frac_den
      → ((promote_to_public_alert s mt metric now suite).0 ≡ some c) ↔ (
          (c ≡ length (agreeing s key now))
          × ((0 < c) × (s.floor ≤ c) × (s.frac_num * population s key now ≤ c * s.frac_den)))
  promote_iff_quorum c pos_den =
      let (low, reach, least) =
        required_quorum_least (pos (population s key now)) s.floor s.frac_num s.frac_den pos_den in
      rw promote-verdict (
        result_iff _ _ c _ _
          (λ n. (0 < n) × (s.floor ≤ n) × (s.frac_num * population s key now ≤ n * s.frac_den))
          (quorum_iff _ _ s.floor _ s.frac_den low reach (least _)))

  -- A call that returns none leaves the scorer as it was. One that promotes drops the candidates of
  -- its stream, and keeps those of every other stream and all observers.
  pub promote_effect :
      ((promote_to_public_alert s mt metric now suite).0 ≡ none
        → (promote_to_public_alert s mt metric now suite).1 ≡ s)
      × ((c : ℕ)
          → (promote_to_public_alert s mt metric now suite).0 ≡ some c
          → (j : Triple)
          → (get j (promote_to_public_alert s mt metric now suite).1.agree
              ≡ (if key == j then none else get j s.agree))
            × ((promote_to_public_alert s mt metric now suite).1.observers ≡ s.observers))
  unfolding clear
  promote_effect = rw promote-verdict (elim (Bool-cases (passes (agreeing s key now))) [
    | inl met ↦ rw met (λ h. cc, λ c h j. (get-remove key j s.agree, refl))
    | inr stays ↦ rw stays (λ h. refl, λ c h. cc)
  ])

  -- The state after the call: unchanged, or with the candidates of the stream cleared.
  pub promote_cases :
      (promote_to_public_alert s mt metric now suite ≡ (none, s))
      ⊎ (promote_to_public_alert s mt metric now suite
          ≡ (some (length (agreeing s key now)), clear s mt metric suite))
  promote_cases = rw promote-verdict (elim (Bool-cases (passes (agreeing s key now))) [
    | inl met ↦ inr (rw met)
    | inr stays ↦ inl (rw stays)
  ])

  pub promote-outcome :
      (promote_to_public_alert s mt metric now suite).0
      ≡ outcome s.floor s.frac_num s.frac_den
          (live_orgs s (bucket_of key s.observers) now)
          (agreeing s key now)
  promote-outcome = rw promote-verdict (if-fst (passes (agreeing s key now)) _ _ _ _)
