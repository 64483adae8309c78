-- ===== src/Schema/Examples.antt =====
-- The hash check of gateway/schema.py on a digest.
use seismograph.Prelude.{ℕ, ◌≡◌, refl, ◌↔◌, ◌⊎◌, true, false, List, [], ◌∷◌, ◌++◌}
use seismograph.Schema.{codes, val_pat}
use seismograph.Schema.Hashes.{IsDigest, val_pat_iff}

abbrev digest : List ℕ
digest = codes "0123456789abcdef0123456789abcdef0123456789abcdef0123456789abcdef"

trailing_newline : val_pat (digest ++ b'\n' ∷ []) ≡ true
unfolding val_pat
trailing_newline = refl

two_newlines : val_pat (digest ++ b'\n' ∷ b'\n' ∷ []) ≡ false
unfolding val_pat
two_newlines = refl

val_pat_iff_example :
    (val_pat digest ≡ true)
    ↔ (IsDigest digest ⊎ ((ds : List ℕ) × (digest ≡ ds ++ b'\n' ∷ []) × IsDigest ds))
val_pat_iff_example = val_pat_iff digest
