-- ===== src/Quorum/Bounds.antt =====
-- What the quorum schedule of engine/correlation.py promises.
use seismograph.Prelude.{ℕ, ◌+◌, ◌-◌, ◌*◌, ◌/◌, ◌≤◌, ◌<◌, ◌≡◌, arith}
use native.Mathlib.Nat.{le_trans}
use seismograph.Prelude.Int.{ℤ, pos, negsuc, pos_part, ◌≤ℤ◌}
use seismograph.Quorum.{required_quorum, quorum_floor, quorum_frac_num, quorum_frac_den}

-- Division rounded up: the least number whose multiple reaches `a`.
ceil_reaches : (a d : ℕ) → 0 < d → a ≤ (a + d - 1) / d * d
ceil_reaches a d h = grind arith

ceil_least : (a d r : ℕ) → 0 < d → a ≤ r * d → (a + d - 1) / d ≤ r
ceil_least a d r h g = grind arith

pub mul_mono : {a b q : ℕ} (d : ℕ) → a ≤ b * d → b ≤ q → a ≤ q * d
mul_mono d h k = grind arith

share_mono : {a b : ℕ} (n : ℕ) → a ≤ b → n * a ≤ n * b
share_mono n h = grind arith

pos_part_mono : (m n : ℤ) → m ≤ℤ n → pos_part m ≤ pos_part n
pos_part_mono (pos a) (pos b) h = omega arith
pos_part_mono (pos a) (negsuc b) h = omega arith
pos_part_mono (negsuc a) n h = omega arith

-- For a positive denominator the quorum is the least number that is at least the floor and whose
-- share of the population reaches the fraction: both bounds hold of it, and it is at most every
-- number of which both hold.
pub required_quorum_least :
    (m : ℤ) (floor num den : ℕ)
    → 0 < den
    → (floor ≤ required_quorum m floor num den)
      × (num * pos_part m ≤ required_quorum m floor num den * den)
      × ((r : ℕ) → floor ≤ r → num * pos_part m ≤ r * den → required_quorum m floor num den ≤ r)
unfolding required_quorum
required_quorum_least m floor num den h =
    let share = num * pos_part m in
    let scaled = (share + den - 1) / den in
    (
      omega arith,
      mul_mono den (ceil_reaches share den h) (omega arith),
      λ r low reach. omega (arith, ceil_least share den r h reach),
    )

-- A larger population never needs a smaller quorum.
required_quorum_mono :
    (m n : ℤ) (floor num den : ℕ)
    → 0 < den
    → m ≤ℤ n
    → required_quorum m floor num den ≤ required_quorum n floor num den
required_quorum_mono m n floor num den h le =
    let (low, reach, _) = required_quorum_least n floor num den h in
    (required_quorum_least m floor num den h).2 (required_quorum n floor num den) low
      (le_trans (share_mono num (pos_part_mono m n le)) reach)

-- With the repository's constants the quorum is 3 up to nine observers, from three observers on it
-- is never more than the population, and each further three observers raise it by one.
pub default_quorum_bounds :
    (m : ℕ)
    → (m ≤ 9 → required_quorum (pos m) quorum_floor quorum_frac_num quorum_frac_den ≡ 3)
      × (3 ≤ m → required_quorum (pos m) quorum_floor quorum_frac_num quorum_frac_den ≤ m)
      × (7 ≤ m
          → required_quorum (pos (m + 3)) quorum_floor quorum_frac_num quorum_frac_den
            ≡ required_quorum (pos m) quorum_floor quorum_frac_num quorum_frac_den + 1)
unfolding required_quorum
default_quorum_bounds m = (λ h. omega arith, λ h. omega arith, λ h. omega arith)

pub required_quorum-ge : (m : ℤ) (floor num den : ℕ) → floor ≤ required_quorum m floor num den
unfolding required_quorum
required_quorum-ge m floor num den = omega arith
