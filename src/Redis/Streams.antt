-- ===== src/Redis/Streams.antt =====
-- The keys of the streams: which of them the server keeps apart, and which it does not.
use Prim.Native.String.{◌++◌}
use Prim.Native.Char.{code}
use Prim.Native.String.append
use mathlib.Core.List.{◌++◌ as chain}
use seismograph.Prelude.{
  ◌≢◌, arith, ℕ, List, ◌∷◌, ◌≡◌, ap, sym, ◌∙◌, arith, String, Triple, false, Bool-cases, inl, inr,
  string_eq, ◌==◌, eq_iff,
}
use seismograph.Redis.{agree_key, obs_key}
use seismograph.Schema.{codes}

abbrev pub akey_of : Triple → String
akey_of (model_tuple, suite_version, metric_name) = agree_key model_tuple metric_name suite_version

abbrev pub okey_of : Triple → String
okey_of (model_tuple, suite_version, metric_name) = obs_key model_tuple metric_name suite_version

abbrev fourth : List ℕ → ℕ
fourth (a ∷ (b ∷ (c ∷ (d ∷ cs)))) = d
fourth _ = 0

codes-append : (s t : String) → codes (s ++ t) ≡ chain (codes s) (codes t)
codes-append String.[] t = ap codes (append.nil t)
codes-append (String.◌∷◌ c s) t =
    ap codes (append.cons c s t) ∙ ap (λ cs. code c ∷ cs) (codes-append s t)

q_ne_o : ◌≢◌ {A = ℕ} b'q' b'o'
q_ne_o h = absurd (omega arith)

pub akey-okey : (j k : Triple) → (akey_of j == okey_of k) ≡ false
unfolding agree_key obs_key
akey-okey (a, b, c) (x, y, z) = elim (Bool-cases (akey_of (a, b, c) == okey_of (x, y, z))) [
  | inl same ↦ absurd (
      q_ne_o (
        sym (ap fourth (codes-append "sg:quorum:" (a ++ ":" ++ b ++ ":" ++ c)))
        ∙ ap (λ s. fourth (codes s)) ((eq_iff (akey_of (a, b, c)) (okey_of (x, y, z))).0 same)
        ∙ ap fourth (codes-append "sg:observers:" (x ++ ":" ++ y ++ ":" ++ z))))
  | inr differ ↦ differ
]

pub okey-akey : (j k : Triple) → (okey_of j == akey_of k) ≡ false
okey-akey j k =
    ground (arith, akey-okey k j, eq_iff (okey_of j) (akey_of k), eq_iff (akey_of k) (okey_of j))
