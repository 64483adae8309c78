-- ===== src/Dict/Keys.antt =====
-- The keys of a dictionary: no key twice, and how many keys there can be.
use mathlib.Core.Path.{subst}
use mathlib.Core.List.{◌++◌}
use seismograph.Prelude.{
  suc, ◌≤◌, none, inl, inr, Bool-cases, refl, ap, map, keep, ◌≡◌, Bool, true, false, List, [], ◌∷◌,
  arith, ◌==◌, length, if◌then◌else◌, either,
}
use seismograph.Prelude.Eq.{Eq}
use seismograph.Dict.{Dict, put, get, remove}

module _ {ℓ} {K : Type ℓ} ⦃e : Eq K⦄ where
  abbrev pub contains : K → List K → Bool
  contains k [] = false
  contains k (x ∷ xs) = either (x == k) (contains k xs)

  abbrev pub Distinct : List K → Type 0
  Distinct [] = Unit
  Distinct (x ∷ xs) = (contains x xs ≡ false) × Distinct xs

  -- Every item of the first list is in the second.
  abbrev pub Within : List K → List K → Type 0
  Within [] ys = Unit
  Within (x ∷ xs) ys = (contains x ys ≡ true) × Within xs ys

  erase : K → List K → List K
  erase k [] = []
  erase k (x ∷ xs) = if x == k then xs else x ∷ erase k xs

  length-erase :
      (k : K) (xs : List K) → contains k xs ≡ true → suc (length (erase k xs)) ≡ length xs
  unfolding erase
  length-erase k [] h = cc
  length-erase k (x ∷ xs) h = ground (arith, length-erase k xs)

  contains-erase :
      (k j : K) (xs : List K)
      → (j == k) ≡ false
      → contains k xs ≡ true
      → contains k (erase j xs) ≡ true
  unfolding erase
  contains-erase k j [] ne h = h
  contains-erase k j (x ∷ xs) ne h =
      ground (arith, contains-erase k j xs ne, e.beq_iff x j, e.beq_iff x k, e.beq_iff j k)

  Within-erase :
      (k : K) (xs ys : List K) → contains k xs ≡ false → Within xs ys → Within xs (erase k ys)
  Within-erase k [] ys h w = tt
  Within-erase k (x ∷ xs) ys h w = (
    contains-erase x k ys (ground (arith, e.beq_iff x k, e.beq_iff k x)) w.0,
    Within-erase k xs ys (ground arith) w.1,
  )

  -- Distinct items of a list are no more than the list is long.
  pub length_of_Within : (xs ys : List K) → Distinct xs → Within xs ys → length xs ≤ length ys
  length_of_Within [] ys d w = omega arith
  length_of_Within (x ∷ xs) ys d w = omega (
    arith,
    length_of_Within xs (erase x ys) d.1 (Within-erase x xs ys d.0 w.1),
    length-erase x ys w.0,
  )

module _ {ℓ κ} {K : Type ℓ} {V : Type κ} ⦃e : Eq K⦄ where
  abbrev pub keys : Dict K V → List K
  keys = map (λ x. x.0)

  contains-put :
      (k j : K) (v : V) (d : Dict K V)
      → contains j (keys (put k v d)) ≡ either (k == j) (contains j (keys d))
  contains-put k j v [] = refl
  contains-put k j v ((i, w) ∷ d) =
      ground (arith, contains-put k j v d, e.beq_iff i k, e.beq_iff i j, e.beq_iff k j)

  pub Distinct-put :
      (k : K) (v : V) (d : Dict K V) → Distinct (keys d) → Distinct (keys (put k v d))
  Distinct-put k v [] h = (refl, tt)
  Distinct-put k v ((i, w) ∷ d) h =
      ground (arith, Distinct-put k v d h.1, contains-put k i v d, e.beq_iff i k, e.beq_iff k i)

  pub Within-put :
      (k : K) (v : V) (d : Dict K V) (ys : List K)
      → contains k ys ≡ true
      → Within (keys d) ys
      → Within (keys (put k v d)) ys
  Within-put k v [] ys c h = (c, tt)
  Within-put k v ((i, w) ∷ d) ys c h = ground (arith, Within-put k v d ys c h.1)

  -- What a test lets through keeps both.
  contains-keep :
      (p : K × V → Bool) (k : K) (d : Dict K V)
      → contains k (keys d) ≡ false
      → contains k (keys (keep p d)) ≡ false
  contains-keep p k [] h = refl
  contains-keep p k (x ∷ d) h = ground (arith, contains-keep p k d)

  pub Distinct-keep :
      (p : K × V → Bool) (d : Dict K V) → Distinct (keys d) → Distinct (keys (keep p d))
  Distinct-keep p [] h = tt
  Distinct-keep p (x ∷ d) h = ground (arith, Distinct-keep p d h.1, contains-keep p x.0 d h.0)

  pub Within-keep :
      (p : K × V → Bool) (d : Dict K V) (ys : List K)
      → Within (keys d) ys
      → Within (keys (keep p d)) ys
  Within-keep p [] ys h = tt
  Within-keep p (x ∷ d) ys h = ground (arith, Within-keep p d ys h.1)

  -- A dictionary restricted by a test on its keys.
  pub get-keep :
      (p : K → Bool) (k : K) (d : Dict K V)
      → get k (keep (λ x. p x.0) d) ≡ (if p k then get k d else none)
  get-keep p k [] = ground arith
  get-keep p k ((i, w) ∷ d) = elim (Bool-cases (i == k)) [
    | inl here ↦ let q : p i ≡ p k = ap p ((e.beq_iff i k).0 here) in ground (arith, get-keep p k d)
    | inr other ↦ ground (arith, get-keep p k d)
  ]

module _ {ℓ} {K : Type ℓ} ⦃e : Eq K⦄ where
  pub contains-append :
      (k : K) (xs ys : List K) → contains k (xs ++ ys) ≡ either (contains k xs) (contains k ys)
  contains-append k [] ys = refl
  contains-append k (x ∷ xs) ys = ground (arith, contains-append k xs ys)

  pub Distinct-snoc :
      (k : K) (xs : List K) → contains k xs ≡ false → Distinct xs → Distinct (xs ++ k ∷ [])
  Distinct-snoc k [] h d = (refl, tt)
  Distinct-snoc k (x ∷ xs) h d =
      ground
        (arith, Distinct-snoc k xs, contains-append x xs (k ∷ []), e.beq_iff x k, e.beq_iff k x)

-- Removing keys, and lists of distinct keys that a dictionary holds.
module _ {ℓ κ} {K : Type ℓ} {V : Type κ} ⦃e : Eq K⦄ where
  pub contains-remove :
      (k j : K) (d : Dict K V)
      → contains j (keys (remove k d)) ≡ (if k == j then false else contains j (keys d))
  contains-remove k j [] = ground arith
  contains-remove k j ((i, w) ∷ d) =
      ground (arith, contains-remove k j d, e.beq_iff i k, e.beq_iff i j, e.beq_iff k j)

  pub Distinct-remove : (k : K) (d : Dict K V) → Distinct (keys d) → Distinct (keys (remove k d))
  Distinct-remove k [] h = tt
  Distinct-remove k ((i, w) ∷ d) h =
      ground (arith, Distinct-remove k d h.1, contains-remove k i d, h.0)

  remove-absent :
      (k : K) (d : Dict K V) → contains k (keys d) ≡ false → length (remove k d) ≡ length d
  remove-absent k [] h = refl
  remove-absent k ((i, w) ∷ d) h = ground (arith, remove-absent k d)

  pub length-remove :
      (k : K) (d : Dict K V)
      → Distinct (keys d)
      → contains k (keys d) ≡ true
      → suc (length (remove k d)) ≡ length d
  length-remove k [] u c = ground arith
  length-remove k ((i, w) ∷ d) u c = elim (Bool-cases (i == k)) [
    | inl here ↦
        let absent : contains k (keys d) ≡ false =
          subst (λ x. contains x (keys d) ≡ false) ((e.beq_iff i k).0 here) u.0 in
        ground (arith, remove-absent k d absent)
    | inr other ↦ ground (arith, length-remove k d u.1)
  ]

  pub Within-remove :
      (k : K) (ns : List K) (d : Dict K V)
      → contains k ns ≡ false
      → Within ns (keys d)
      → Within ns (keys (remove k d))
  Within-remove k [] d u h = tt
  Within-remove k (n ∷ ns) d u h =
      ground
        (arith, contains-remove k n d, Within-remove k ns d, e.beq_iff k n, e.beq_iff n k, h.0, h.1)

  pub get-contains : (k : K) (d : Dict K V) → get k d ≡ none → contains k (keys d) ≡ false
  get-contains k [] h = refl
  get-contains k ((i, w) ∷ d) h = ground (arith, get-contains k d)
