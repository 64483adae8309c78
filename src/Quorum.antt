-- ===== src/Quorum.antt =====
-- engine/correlation.py: the quorum schedule, `required_quorum` and its constants.
pub mod Bounds
mod Examples
use seismograph.Prelude.{ℕ, ◌+◌, ◌-◌, ◌*◌, ◌/◌, max}
use seismograph.Prelude.Int.{ℤ, pos_part}

-- QUORUM_FLOOR, QUORUM_FRAC_NUM, QUORUM_FRAC_DEN, DEFAULT_TTL_NS
abbrev pub quorum_floor : ℕ
quorum_floor = 3

abbrev pub quorum_frac_num : ℕ
quorum_frac_num = 1

abbrev pub quorum_frac_den : ℕ
quorum_frac_den = 3

abbrev pub default_ttl_ns : ℕ
default_ttl_ns = 14 * 86400 * 1000000000

-- A negative population counts as 0. The floor and the fraction are natural numbers, and the
-- source asks for a denominator above 0 (`//` by 0 raises).
unfoldable pub required_quorum : ℤ → ℕ → ℕ → ℕ → ℕ
required_quorum network_size floor frac_num frac_den =
    let m = pos_part network_size in
    let scaled = (frac_num * m + frac_den - 1) / frac_den in max floor scaled
