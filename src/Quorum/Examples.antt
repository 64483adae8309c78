-- ===== src/Quorum/Examples.antt =====
-- Values of the quorum schedule of engine/correlation.py, and its theorems at concrete inputs.
use seismograph.Prelude.{ℕ, ◌*◌, ◌≤◌, ◌≡◌, refl, arith}
use seismograph.Prelude.Int.{pos, negsuc, pos_part}
use seismograph.Quorum.{required_quorum}
use seismograph.Quorum.Bounds.{required_quorum_least}

quorum_values :
    (required_quorum (negsuc 4) 3 1 3 ≡ 3)
    × (required_quorum (pos 9) 3 1 3 ≡ 3)
    × (required_quorum (pos 10) 3 1 3 ≡ 4)
    × (required_quorum (pos 30) 3 1 3 ≡ 10)
    × (required_quorum (pos 7) 2 1 2 ≡ 4)
unfolding required_quorum
quorum_values = (refl, refl, refl, refl, refl)

required_quorum_least_example :
    (3 ≤ required_quorum (pos 20) 3 1 3)
    × (1 * pos_part (pos 20) ≤ required_quorum (pos 20) 3 1 3 * 3)
    × ((r : ℕ) → 3 ≤ r → 1 * pos_part (pos 20) ≤ r * 3 → required_quorum (pos 20) 3 1 3 ≤ r)
required_quorum_least_example = required_quorum_least (pos 20) 3 1 3 (omega arith)
