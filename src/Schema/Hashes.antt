-- ===== src/Schema/Hashes.antt =====
-- What gets through the hash check of gateway/schema.py.
use mathlib.Core.Path.{subst}
use seismograph.Prelude.{
  ap, ℕ, ◌≡◌, refl, ◌⊎◌, ◌↔◌, true, List, [], ◌∷◌, ◌++◌, arith, length, nat_eq, inl, inr,
}
use seismograph.Schema.{chomp, every, is_hex, val_pat}

chomp-newline : (cs : List ℕ) → chomp (cs ++ b'\n' ∷ []) ≡ cs
chomp-newline [] = refl
chomp-newline (c ∷ []) = refl
chomp-newline (c ∷ d ∷ cs) = rw (chomp-newline (d ∷ cs))

chomp-cases : (cs : List ℕ) → (chomp cs ≡ cs) ⊎ (cs ≡ chomp cs ++ b'\n' ∷ [])
chomp-cases [] = inl refl
chomp-cases (c ∷ []) = ground arith
chomp-cases (c ∷ d ∷ cs) = elim (chomp-cases (d ∷ cs)) [
  | inl e ↦ inl (ap (◌∷◌ c) e)
  | inr e ↦ inr (ap (◌∷◌ c) e)
]

-- 64 lowercase hexadecimal digits.
abbrev pub IsDigest : List ℕ → Type 0
IsDigest cs = (length cs ≡ 64) × (every is_hex cs ≡ true)

-- A text whose last character is a digit keeps it.
chomp-digits : (cs : List ℕ) → every is_hex cs ≡ true → chomp cs ≡ cs
chomp-digits [] h = refl
chomp-digits (c ∷ []) h = ground arith
chomp-digits (c ∷ d ∷ cs) h = ap (◌∷◌ c) (chomp-digits (d ∷ cs) (ground arith))

-- The hash check lets through exactly the digests and the digests with one newline behind them.
pub val_pat_iff :
    (cs : List ℕ)
    → (val_pat cs ≡ true) ↔ (IsDigest cs ⊎ ((ds : List ℕ) × (cs ≡ ds ++ b'\n' ∷ []) × IsDigest ds))
unfolding val_pat
val_pat_iff cs = (
  λ h. elim (chomp-cases cs) [
    | inl e ↦ inl (subst IsDigest e (ground arith, ground arith))
    | inr e ↦ inr (chomp cs, e, (ground arith, ground arith))
  ],
  λ h. elim h [
    | inl d ↦ rw (chomp-digits cs d.1) (ground arith)
    | inr (ds, e, d) ↦ rw (e, chomp-newline) (ground arith)
  ],
)
