-- ===== src/Compare/Stats.antt =====
-- probe/compare.py: the statistics of one metric, `item_stat` to `permutation_p`. The generator of
-- random numbers is a parameter, and so is the arithmetic of floats.
use mathlib.Core.List.{◌++◌}
use seismograph.Prelude.{
  ℕ, zero, suc, ◌+◌, ◌≤◌, Bool, true, false, List, [], ◌∷◌, map, arith, length, both, negate,
  if◌then◌else◌, nat_eq,
}
use seismograph.Float.{Float}

-- `random.Random(seed)` and its `randrange`
pub record Random : Type 1 where
  pub State : Type 0
  pub seeded : ℕ → State
  pub randrange : ℕ → State → ℕ × State

abbrev pub n_permutations : ℕ
n_permutations = 999

module _ (fl : Float) where
  abbrev pub zero_value : fl.Value
  zero_value = fl.lit 0 1

  -- `_mean`
  unfoldable pub mean : List fl.Value → fl.Value
  mean [] = zero_value
  mean (x ∷ xs) = fl.div (fl.total (x ∷ xs)) (fl.lit (length (x ∷ xs)) 1)

  -- `v == 0.0` of a distance, which is not NaN
  abbrev pub is_zero : fl.Value → Bool
  is_zero v = both (negate (fl.ltb v zero_value)) (negate (fl.ltb zero_value v))

  -- `t[i]` of a table of splits; an index is in range
  abbrev pub nth : ℕ → List fl.Value → fl.Value
  nth i [] = zero_value
  nth zero (x ∷ xs) = x
  nth (suc i) (x ∷ xs) = nth i xs

  module _ (rand : Random) where
    -- One term of a permutation's sum: the only entry, or one drawn at random.
    unfoldable pub draw : List fl.Value → rand.State → fl.Value × rand.State
    draw (v ∷ []) rng = (v, rng)
    draw t rng = let (i, after) = rand.randrange (length t) rng in (nth i t, after)

    unfoldable pub draw_total : List (List fl.Value) → fl.Value → rand.State → fl.Value × rand.State
    unfolding draw
    draw_total [] acc rng = (acc, rng)
    draw_total (t ∷ tables) acc rng =
        let (v, after) = draw t rng in draw_total tables (fl.add acc v) after

    -- How many of `n` permutations reach the observed mean, up to 1e-12.
    unfoldable pub count_hits : ℕ → List (List fl.Value) → fl.Value → rand.State → ℕ
    unfolding draw_total
    count_hits zero tables observed rng = 0
    count_hits (suc n) tables observed rng =
        let (sum, after) = draw_total tables zero_value rng in
        let rest = count_hits n tables observed after in
        let mean_of_draw = fl.div sum (fl.lit (length tables) 1) in
        if fl.ltb mean_of_draw (fl.sub observed (fl.lit 1 1000000000000)) then rest else suc rest

    abbrev single : List fl.Value → Bool
    single (v ∷ []) = true
    single _ = false

    abbrev all_single : List (List fl.Value) → Bool
    all_single [] = true
    all_single (t ∷ tables) = both (single t) (all_single tables)

    -- No more hits than permutations, so that the p-value lies between 1/1000 and 1.
    count_hits-le :
        (n : ℕ) (tables : List (List fl.Value)) (observed : fl.Value) (rng : rand.State)
        → count_hits n tables observed rng ≤ n
    unfolding count_hits
    count_hits-le zero tables observed rng = omega arith
    count_hits-le (suc n) tables observed rng =
        let r = draw_total tables zero_value rng in
        ground (arith, count_hits-le n tables observed r.1)

  module _ {A : Type 0} (dist : A → A → fl.Value) where
    -- `[dist(a, b) for a, b in combinations(vals, 2)]`
    abbrev pub pairwise : List A → List fl.Value
    pairwise [] = []
    pairwise (x ∷ xs) = map (dist x) xs ++ pairwise xs

    abbrev pub crosswise : List A → List A → List fl.Value
    crosswise [] ys = []
    crosswise (x ∷ xs) ys = map (dist x) ys ++ crosswise xs ys

    -- `_within`, `_cross`
    abbrev pub within : List A → fl.Value
    within vals = mean (pairwise vals)

    abbrev pub cross : List A → List A → fl.Value
    cross a b = mean (crosswise a b)

    pub record ItemStat : Type 0 where
      pub wa : fl.Value
      pub wb : fl.Value
      pub cr : fl.Value
      pub excess : fl.Value

    unfoldable pub item_stat : List A → List A → ItemStat
    unfolding mean
    item_stat a b =
        let wa = within a in
        let wb = within b in
        let cr = cross a b in
        record {
          wa = wa;
          wb = wb;
          cr = cr;
          excess = fl.sub cr (fl.div (fl.add wa wb) (fl.lit 2 1));
        }

    abbrev all_zero : List fl.Value → Bool
    all_zero [] = true
    all_zero (v ∷ vs) = both (is_zero v) (all_zero vs)

    -- The ways to part a list into `k` items and the rest, as `combinations` lists them.
    abbrev pub splits : ℕ → List A → List (List A × List A)
    splits zero xs = ([], xs) ∷ []
    splits (suc k) [] = []
    splits (suc k) (x ∷ xs) =
        map (λ s. (x ∷ s.0, s.1)) (splits k xs) ++ map (λ s. (s.0, x ∷ s.1)) (splits (suc k) xs)

    -- `all(v == 0.0 for row in d for v in row)` of the table of distances
    abbrev pub no_distance : List A → Bool
    no_distance pooled = all_zero (crosswise pooled pooled)

    -- `_split_stats`
    unfoldable pub split_stats : List A → List A → List fl.Value
    unfolding item_stat
    split_stats a b =
        if no_distance (a ++ b)
        then zero_value ∷ []
        else map (λ s. (item_stat s.0 s.1).excess) (splits (length a) (a ++ b))

    unfoldable pub permutation_p : (rand : Random) → List (List A × List A) → rand.State → fl.Value
    unfolding split_stats item_stat count_hits
    permutation_p rand per_item rng =
        let observed = mean (map (λ p. (item_stat p.0 p.1).excess) per_item) in
        let tables = map (λ p. split_stats p.0 p.1) per_item in
        if all_single rand tables
        then fl.lit 1 1
        else fl.div (fl.lit (1 + count_hits rand n_permutations tables observed rng) 1)
            (fl.lit (1 + n_permutations) 1)
