-- ===== src/Prelude/Eq.antt =====
-- Python's `==` on the values that serve as dictionary keys, as an interface.
use seismograph.Prelude.Tests.{both}
use seismograph.Prelude.Tests.{==_iff, ◌==◌ as nat_beq}
use Prim.Native.Nat.{ℕ}
use Prim.Native.String.{String}
use mathlib.Core.Path.{◌≡◌, refl}
use mathlib.Core.Logic.{◌↔◌}
use mathlib.Core.Bool.{Bool, true}
use native.Mathlib.Omega.{arith}
use text.Mathlib.Text.{◌==◌ as text_eq}
use text.Mathlib.TextEquality.{eq_iff}

-- The type of the keys, with a decision and the proof that it is right.
pub record Eq {ℓ} (K : Type ℓ) : Type ℓ where
  pub beq : K → K → Bool
  pub beq_iff : (j k : K) → (beq j k ≡ true) ↔ (j ≡ k)

instance abbrev pub string_eq : Eq String
string_eq = record { beq = text_eq; beq_iff = eq_iff }

infix 50 ◌==◌
abbrev pub ◌==◌ {ℓ} : {K : Type ℓ} ⦃e : Eq K⦄ → K → K → Bool
◌==◌ ⦃e⦄ j k = e.beq j k

pub beq_refl {ℓ} : {A : Type ℓ} ⦃e : Eq A⦄ (a : A) → (a == a) ≡ true
beq_refl ⦃e⦄ a = (e.beq_iff a a).1 refl

-- Triples of texts, which the streams of the engine are keyed by.
abbrev pub Triple : Type 0
Triple = String × String × String

abbrev pub triple_beq : Triple → Triple → Bool
triple_beq (a, b, c) (x, y, z) = both (text_eq a x) (both (text_eq b y) (text_eq c z))

pub triple_beq_iff : (p q : Triple) → (triple_beq p q ≡ true) ↔ (p ≡ q)
triple_beq_iff (a, b, c) (x, y, z) = ground (arith, eq_iff a x, eq_iff b y, eq_iff c z)

instance abbrev pub triple_eq : Eq Triple
triple_eq = record { beq = triple_beq; beq_iff = triple_beq_iff }

instance abbrev pub nat_eq : Eq ℕ
nat_eq = record { beq = nat_beq; beq_iff = ==_iff }
