-- ===== src/Dict/Live.antt =====
-- Dictionaries filtered by a test on their values, and how many entries such a test lets through.
use mathlib.Core.Path.{subst}
use seismograph.Prelude.{
  none, some, Option, inl, inr, Bool-cases, refl, keep, ◌≡◌, ◌∙◌, sym, Bool, true, false, List, [],
  ◌∷◌, arith, ◌==◌, length, length-map, if◌then◌else◌,
}
use seismograph.Prelude.Eq.{Eq}
use seismograph.Dict.{Dict, get}
use seismograph.Dict.Keys.{keys, contains, Distinct, Distinct-keep, Within, length_of_Within}

abbrev pub passes {ℓ} : {A : Type ℓ} → (A → Bool) → Option A → Bool
passes p none = false
passes p (some v) = p v

-- What a test leaves of an optional value.
abbrev pub retain {ℓ} : {A : Type ℓ} → (A → Bool) → Option A → Option A
retain p none = none
retain p (some v) = if p v then some v else none

passes-retain {ℓ} :
    {A : Type ℓ} (p : A → Bool) (o : Option A) → passes (λ v. true) (retain p o) ≡ passes p o
passes-retain p none = refl
passes-retain p (some v) = ground arith

module _ {ℓ} {K : Type ℓ} ⦃e : Eq K⦄ where
  Within-skip : (x : K) (xs ys : List K) → Within xs ys → Within xs (x ∷ ys)
  Within-skip x [] ys h = tt
  Within-skip x (y ∷ xs) ys h = (ground (arith, h.0), Within-skip x xs ys h.1)

  Within-refl : (xs : List K) → Within xs xs
  Within-refl [] = tt
  Within-refl (x ∷ xs) = (ground (arith, e.beq_iff x x), Within-skip x xs xs (Within-refl xs))

  Within_of :
      (xs ys zs : List K)
      → ((k : K) → contains k zs ≡ true → contains k ys ≡ true)
      → Within xs zs
      → Within xs ys
  Within_of [] ys zs h w = tt
  Within_of (x ∷ xs) ys zs h w = (h x w.0, Within_of xs ys zs h w.1)

  -- Lists of distinct items with the same items are equally long.
  pub length_of_same :
      (xs ys : List K)
      → Distinct xs
      → Distinct ys
      → ((k : K) → contains k xs ≡ contains k ys)
      → length xs ≡ length ys
  length_of_same xs ys d f h = omega (
    arith,
    length_of_Within xs ys d (Within_of xs ys xs (λ k c. sym (h k) ∙ c) (Within-refl xs)),
    length_of_Within ys xs f (Within_of ys xs ys (λ k c. h k ∙ c) (Within-refl ys)),
  )

module _ {ℓ κ} {K : Type ℓ} {V : Type κ} ⦃e : Eq K⦄ where
  contains-get : (k : K) (d : Dict K V) → contains k (keys d) ≡ false → get k d ≡ none
  contains-get k [] h = refl
  contains-get k ((i, w) ∷ d) h = ground (arith, contains-get k d)

  pub get-keep_value :
      (p : V → Bool) (k : K) (d : Dict K V)
      → Distinct (keys d)
      → get k (keep (λ x. p x.1) d) ≡ retain p (get k d)
  get-keep_value p k [] u = refl
  get-keep_value p k ((i, w) ∷ d) u = elim (Bool-cases (i == k)) [
    | inl here ↦
        let absent : contains k (keys d) ≡ false =
          subst (λ x. contains x (keys d) ≡ false) ((e.beq_iff i k).0 here) u.0 in
        ground (arith, get-keep_value p k d u.1, contains-get k d absent)
    | inr other ↦ ground (arith, get-keep_value p k d u.1)
  ]

  contains-keys : (k : K) (d : Dict K V) → contains k (keys d) ≡ passes (λ v. true) (get k d)
  contains-keys k [] = refl
  contains-keys k ((i, w) ∷ d) = ground (arith, contains-keys k d)

  contains-keep_value :
      (p : V → Bool) (k : K) (d : Dict K V)
      → Distinct (keys d)
      → contains k (keys (keep (λ x. p x.1) d)) ≡ passes p (get k d)
  contains-keep_value p k d u =
      rw (contains-keys k (keep (λ x. p x.1) d), get-keep_value p k d u) (passes-retain p (get k d))

  -- Two dictionaries whose entries at each key pass their tests alike let equally many through.
  pub length-keep_same :
      (p q : V → Bool) (c d : Dict K V)
      → Distinct (keys c)
      → Distinct (keys d)
      → ((k : K) → passes p (get k c) ≡ passes q (get k d))
      → length (keep (λ x. p x.1) c) ≡ length (keep (λ x. q x.1) d)
  length-keep_same p q c d u v h =
      sym (length-map (keep (λ x. p x.1) c) (λ x. x.0))
      ∙ length_of_same (keys (keep (λ x. p x.1) c)) (keys (keep (λ x. q x.1) d))
          (Distinct-keep (λ x. p x.1) c u) (Distinct-keep (λ x. q x.1) d v)
          (λ k. contains-keep_value p k c u ∙ h k ∙ sym (contains-keep_value q k d v))
      ∙ length-map (keep (λ x. q x.1) d) (λ x. x.0)
